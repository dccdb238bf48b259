-- ===== src/Controller/Job/Provided.antt =====
-- The secrets that the volumes of a run's job are filled from.
use building_block_runner.Prelude.{
  String, Bool, true, false, Option, none, some, List, [], ◌∷◌, ◌≡◌, refl, ◌||◌, map, str_eq,
  str_eq_iff, is_empty, All, All-append, arith, if◌then◌else◌,
}
use building_block_runner.Controller.Config.{
  ControllerConfig, JobSpecTemplate, ExtraVolume, SecretVolumeSpec, ConfigMapVolumeSpec,
  EmptyDirVolumeSpec, wif_issuer, wif_issuer_keycloak, wif_issuer_kubernetes,
}
use building_block_runner.Controller.Pod.{
  Volume, VolumeMount, volume_source, extra_volume, create_volumes, cloud_volume, wif_token_volumes,
  clouds, minted_token_volumes, projected_token_volumes,
}
use building_block_runner.Controller.World.{History}
use building_block_runner.Controller.Cluster.Known.{knows_secret, IsProvided}

abbrev pub is_filled_from : Option SecretVolumeSpec → String → Bool
is_filled_from none name = false
is_filled_from (some s) name = str_eq s.secret_name name

-- The template fills one of its volumes from this secret.
abbrev pub names_secret : List ExtraVolume → String → Bool
names_secret [] name = false
names_secret (v ∷ volumes) name = is_filled_from v.secret name || names_secret volumes name

module _ (configured : String → Bool) (h : History) where
  abbrev pub AreProvided : List Volume → Type 0
  AreProvided volumes = All (λ (v : Volume). IsProvided configured h v.source) volumes

  volume_source-IsProvided :
      (parse : String → Option String) (config_map : Option ConfigMapVolumeSpec)
      (secret : Option SecretVolumeSpec) (empty_dir : Option EmptyDirVolumeSpec)
      → ((s : SecretVolumeSpec) → secret ≡ some s → configured s.secret_name ≡ true)
      → IsProvided configured h (volume_source parse config_map secret empty_dir)
  unfolding volume_source
  volume_source-IsProvided parse (some config_map) secret empty_dir f = tt
  volume_source-IsProvided parse none (some secret) empty_dir f = ground (arith, f secret refl)
  volume_source-IsProvided parse none none (some empty_dir) f = tt
  volume_source-IsProvided parse none none none f = tt

  extra_volumes-AreProvided :
      (parse : String → Option String) (volumes : List ExtraVolume)
      → ((name : String) → names_secret volumes name ≡ true → configured name ≡ true)
      → AreProvided (map (extra_volume parse) volumes)
  unfolding extra_volume
  extra_volumes-AreProvided parse [] f = tt
  extra_volumes-AreProvided parse (v ∷ volumes) f = (
    volume_source-IsProvided parse v.config_map v.secret v.empty_dir (λ s e.
        f s.secret_name (rw e (ground (arith, (str_eq_iff s.secret_name s.secret_name).1 refl)))),
    extra_volumes-AreProvided parse volumes λ name named. f name (ground (arith, named)),
  )

  cloud_volumes-AreProvided : (cs : List (String × String)) → AreProvided (map cloud_volume cs)
  unfolding cloud_volume
  cloud_volumes-AreProvided [] = tt
  cloud_volumes-AreProvided (c ∷ cs) = (tt, cloud_volumes-AreProvided cs)

  minted_token_volumes-AreProvided :
      (name : String) → knows_secret name h ≡ true → AreProvided (minted_token_volumes name).0
  unfolding minted_token_volumes
  minted_token_volumes-AreProvided name known = (ground (arith, known), tt)

  projected_token_volumes-AreProvided :
      (namespace : String) → AreProvided (projected_token_volumes namespace).0
  unfolding projected_token_volumes
  projected_token_volumes-AreProvided namespace = cloud_volumes-AreProvided (clouds namespace)

  abbrev ProvidedPair : List Volume × List VolumeMount → Type 0
  ProvidedPair pair = AreProvided pair.0

  ProvidedPair-if :
      (b : Bool) (x y : List Volume × List VolumeMount)
      → (b ≡ true → ProvidedPair x)
      → (b ≡ false → ProvidedPair y)
      → ProvidedPair (if b then x else y)
  ProvidedPair-if true x y px py = px refl
  ProvidedPair-if false x y px py = py refl

  wif_token_volumes-AreProvided :
      (config : ControllerConfig) (namespace name : String)
      → (is_empty name || knows_secret name h) ≡ true
      → AreProvided (wif_token_volumes config namespace name).0
  unfolding wif_token_volumes
  wif_token_volumes-AreProvided config namespace name known =
      let issuer = wif_issuer config.workload_identity_federation in
      ProvidedPair-if (str_eq issuer wif_issuer_keycloak) _ _
        (λ _.
          ProvidedPair-if (is_empty name) ([], []) (minted_token_volumes name) (λ _. tt)
            λ named. minted_token_volumes-AreProvided name (ground (arith, known, named)))
        (λ _.
          ProvidedPair-if (str_eq issuer wif_issuer_kubernetes) (projected_token_volumes namespace)
            ([], []) (λ _. projected_token_volumes-AreProvided namespace) (λ _. tt))

  -- The volumes of a run's job.
  pub create_volumes-AreProvided :
      (parse : String → Option String) (config : ControllerConfig) (spec : JobSpecTemplate)
      (namespace run_json token : String)
      → ((name : String) → names_secret spec.extra_volumes name ≡ true → configured name ≡ true)
      → knows_secret run_json h ≡ true
      → (is_empty token || knows_secret token h) ≡ true
      → AreProvided
          (create_volumes parse spec run_json (wif_token_volumes config namespace token).0)
  unfolding create_volumes
  create_volumes-AreProvided parse config spec namespace run_json token f known_json known_token = (
    ground (arith, known_json),
    All-append _ _ _ (wif_token_volumes-AreProvided config namespace token known_token)
        (extra_volumes-AreProvided parse spec.extra_volumes f),
  )
