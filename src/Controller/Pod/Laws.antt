-- ===== src/Controller/Pod/Laws.antt =====
-- Every mount of a run's container has its volume.
use building_block_runner.Prelude.{
  String, Bool, true, false, Option, List, [], ◌∷◌, ◌++◌, ◌≡◌, refl, map, any, All, All-append,
  str_eq, str_eq_iff, arith, ◌<>◌, if◌then◌else◌,
}
use building_block_runner.Controller.Config.{
  ControllerConfig, JobSpecTemplate, ExtraVolume, ExtraVolumeMount,
}
use building_block_runner.Controller.Pod.{
  Volume, VolumeMount, extra_volume, extra_mount, create_volumes, create_volume_mounts, clouds,
  minted_token_volumes, projected_token_volumes, wif_token_volumes, cloud_volume, cloud_mount,
}

abbrev pub is_named : String → Volume → Bool
is_named name v = str_eq v.name name

-- Each mount names a volume.
abbrev pub HaveVolumes : List Volume → List VolumeMount → Type 0
HaveVolumes volumes mounts = All (λ m. any (is_named m.name) volumes ≡ true) mounts

-- The same of the extra mounts and volumes of a job's template.
abbrev pub AreConfigured : JobSpecTemplate → Type 0
AreConfigured spec =
    All
      (λ (m : ExtraVolumeMount).
        any (λ (v : ExtraVolume). str_eq v.name m.name) spec.extra_volumes ≡ true)
      spec.extra_volume_mounts

any-append_left :
    (p : Volume → Bool) (front back : List Volume)
    → any p front ≡ true
    → any p (front ++ back) ≡ true
any-append_left p (x ∷ front) back h = ground (arith, any-append_left p front back)
any-append_left p [] back h = ground arith

any-append_right :
    (p : Volume → Bool) (front back : List Volume)
    → any p back ≡ true
    → any p (front ++ back) ≡ true
any-append_right p (x ∷ front) back h = ground (arith, any-append_right p front back h)
any-append_right p [] back h = h

any-extra_volume :
    (parse : String → Option String) (name : String) (volumes : List ExtraVolume)
    → any (λ v. str_eq v.name name) volumes ≡ true
    → any (is_named name) (map (extra_volume parse) volumes) ≡ true
unfolding extra_volume
any-extra_volume parse name (v ∷ volumes) h = ground (arith, any-extra_volume parse name volumes)
any-extra_volume parse name [] h = h

HaveVolumes-weaken :
    (volumes more : List Volume) (mounts : List VolumeMount)
    → ((p : Volume → Bool) → any p volumes ≡ true → any p more ≡ true)
    → HaveVolumes volumes mounts
    → HaveVolumes more mounts
HaveVolumes-weaken volumes more (m ∷ mounts) f (h, rest) =
    (f (is_named m.name) h, HaveVolumes-weaken volumes more mounts f rest)
HaveVolumes-weaken volumes more [] f h = tt

HaveVolumes-extra_mount :
    (parse : String → Option String) (volumes : List ExtraVolume) (mounts : List ExtraVolumeMount)
    → All
        (λ (m : ExtraVolumeMount). any (λ (v : ExtraVolume). str_eq v.name m.name) volumes ≡ true)
        mounts
    → HaveVolumes (map (extra_volume parse) volumes) (map extra_mount mounts)
unfolding extra_mount
HaveVolumes-extra_mount parse volumes (m ∷ mounts) (h, rest) =
    (any-extra_volume parse m.name volumes h, HaveVolumes-extra_mount parse volumes mounts rest)
HaveVolumes-extra_mount parse volumes [] h = tt

HaveVolumes-clouds :
    (clouds : List (String × String))
    → HaveVolumes (map cloud_volume clouds) (map cloud_mount clouds)
unfolding cloud_volume cloud_mount
HaveVolumes-clouds [] = tt
HaveVolumes-clouds (cloud ∷ rest) = (
  ground (
    arith,
    (str_eq_iff ("service-account-token-" <> cloud.0) ("service-account-token-" <> cloud.0)).1 refl,
  ),
  HaveVolumes-weaken (map cloud_volume rest) (map cloud_volume (cloud ∷ rest))
      (map cloud_mount rest) (λ p h. ground (arith, h)) (HaveVolumes-clouds rest),
)

abbrev Fit : List Volume × List VolumeMount → Type 0
Fit (volumes, mounts) = HaveVolumes volumes mounts

Fit-if :
    (b : Bool) (x y : List Volume × List VolumeMount) → Fit x → Fit y → Fit (if b then x else y)
Fit-if true x y fx fy = fx
Fit-if false x y fx fy = fy

Fit-minted_token_volumes : (name : String) → Fit (minted_token_volumes name)
unfolding minted_token_volumes
Fit-minted_token_volumes name = (refl, tt)

Fit-projected_token_volumes : (namespace : String) → Fit (projected_token_volumes namespace)
unfolding projected_token_volumes
Fit-projected_token_volumes namespace = HaveVolumes-clouds (clouds namespace)

Fit-nothing : Fit ([], [])
Fit-nothing = tt

wif_token_volumes-Fit :
    (config : ControllerConfig) (namespace token_secret_name : String)
    → Fit (wif_token_volumes config namespace token_secret_name)
unfolding wif_token_volumes
wif_token_volumes-Fit config namespace token_secret_name =
    search (Fit-if, Fit-minted_token_volumes, Fit-projected_token_volumes, Fit-nothing)

-- Where every extra mount of the template names an extra volume, every mount of the container names a
-- volume of its pod, for each way of workload identity and with or without a token.
pub create_volume_mounts-HaveVolumes :
    (parse : String → Option String) (config : ControllerConfig) (spec : JobSpecTemplate)
    (namespace run_json_secret_name token_secret_name : String)
    → AreConfigured spec
    → let (volumes, mounts) = wif_token_volumes config namespace token_secret_name in
      HaveVolumes
        (create_volumes parse spec run_json_secret_name volumes)
        (create_volume_mounts spec mounts)
unfolding create_volumes create_volume_mounts
create_volume_mounts-HaveVolumes parse config spec namespace run_json_secret_name token_secret_name
      h =
    let (volumes, mounts) = wif_token_volumes config namespace token_secret_name in
    let extra = map (extra_volume parse) spec.extra_volumes in
    (
      refl,
      HaveVolumes-weaken (volumes ++ extra) (create_volumes parse spec run_json_secret_name volumes)
          (mounts ++ map extra_mount spec.extra_volume_mounts) (λ p there. ground (arith, there))
          (All-append _ mounts (map extra_mount spec.extra_volume_mounts)
            (HaveVolumes-weaken volumes (volumes ++ extra) mounts
              (λ p. any-append_left p volumes extra)
              (wif_token_volumes-Fit config namespace token_secret_name))
            (HaveVolumes-weaken extra (volumes ++ extra) (map extra_mount spec.extra_volume_mounts)
              (λ p. any-append_right p volumes extra)
              (HaveVolumes-extra_mount parse spec.extra_volumes spec.extra_volume_mounts h))),
    )
