-- ===== src/TfCmd/Script/Laws.antt =====
-- The script's environment and text.
use Prim.Native.String.{slice}
use text.Mathlib.TextPositions.{starts_with-append, slice-append_right, len-append}
use building_block_runner.Prelude.{
  String, Bool, true, false, List, [], ◌∷◌, ◌++◌, ◌≡◌, refl, ap, ◌∙◌, any, has_prefix, is_empty,
  join, ◌<>◌, arith, if◌then◌else◌,
}
use building_block_runner.TfCmd.Script.{
  prepend_to_path_environment_variable, prepend_paths, prepend_from, drop_blank, path_key_prefix,
  cut_path,
}

abbrev pub is_path : String → Bool
is_path e = has_prefix e path_key_prefix

-- Entries for other variables are passed over.
prepend_from-append :
    (paths before environ : List String)
    → any is_path before ≡ false
    → prepend_from paths (before ++ environ)
      ≡ (before ++ (prepend_from paths environ).0, (prepend_from paths environ).1)
unfolding prepend_from
prepend_from-append paths [] environ none_there = refl
prepend_from-append paths (e ∷ before) environ none_there =
    let other : has_prefix e path_key_prefix ≡ false = ground (arith, none_there) in
    let rest = prepend_from-append paths before environ (ground (arith, none_there)) in
    rw (other, rest) refl

no_path_lem :
    (paths environ : List String)
    → any is_path environ ≡ false
    → prepend_from paths environ ≡ (environ, false)
unfolding prepend_from
no_path_lem paths [] none_there = refl
no_path_lem paths (e ∷ r) none_there =
    let other : has_prefix e path_key_prefix ≡ false = ground (arith, none_there) in
    rw (other, no_path_lem paths r (ground (arith, none_there))) refl

cut_path-append : (old : String) → cut_path (path_key_prefix <> old) ≡ old
cut_path-append old =
    ap (λ n. slice (path_key_prefix <> old) 5 n) (len-append path_key_prefix old)
    ∙ slice-append_right path_key_prefix old

-- The entry for PATH, with the directory in front of what it held.
abbrev pub extended : String → String → String
extended dir old = path_key_prefix <> (if is_empty old then dir else dir <> ":" <> old)

prepend_from-path :
    (dir old : String) (after : List String)
    → any is_path after ≡ false
    → prepend_from (dir ∷ []) ((path_key_prefix <> old) ∷ after) ≡ (extended dir old ∷ after, true)
unfolding prepend_from join
prepend_from-path dir old after none_there =
    rw (starts_with-append path_key_prefix old, cut_path-append old) (go (is_empty old))
  where
    go :
        (blank : Bool)
        → (let paths = if blank then dir ∷ [] else dir ∷ old ∷ [] in
            ◌≡◌ {A = List String × Bool}
              ((path_key_prefix <> join ":" paths) ∷ (prepend_from paths after).0, true)
              ((path_key_prefix <> (if blank then dir else dir <> ":" <> old)) ∷ after, true))
    go true = rw (no_path_lem (dir ∷ []) after none_there) refl
    go false = rw (no_path_lem (dir ∷ old ∷ []) after none_there) refl

prepend_paths-set :
    (trim : String → String) (environ : List String) (dir : String)
    → is_empty (trim dir) ≡ false
    → prepend_to_path_environment_variable trim environ (dir ∷ [])
      ≡ prepend_paths environ (dir ∷ [])
unfolding prepend_to_path_environment_variable drop_blank
prepend_paths-set trim environ dir set = rw set refl

-- A directory that is not blank is put in front of what the entry for PATH held, with a colon between, or
-- alone where that was empty; and where there is no such entry, one with the directory alone is added at
-- the end. All other entries stay as they are. The environment has at most one entry for PATH.
pub prepend_to_path_environment_variable-extended :
    (trim : String → String) (dir old : String) (before after : List String)
    → is_empty (trim dir) ≡ false
    → any is_path before ≡ false
    → any is_path after ≡ false
    → (prepend_to_path_environment_variable trim
          (before ++ (path_key_prefix <> old) ∷ after)
          (dir ∷ [])
        ≡ before ++ extended dir old ∷ after)
      × (prepend_to_path_environment_variable trim (before ++ after) (dir ∷ [])
          ≡ (before ++ after) ++ (path_key_prefix <> dir) ∷ [])
unfolding prepend_paths join
prepend_to_path_environment_variable-extended trim dir old before after set none_before none_after =
    (
      prepend_paths-set trim _ dir set
          ∙ rw
              (
                prepend_from-append (dir ∷ []) before ((path_key_prefix <> old) ∷ after)
                    none_before,
                prepend_from-path dir old after none_after,
              )
              refl,
      prepend_paths-set trim _ dir set
          ∙ rw
              (
                prepend_from-append (dir ∷ []) before after none_before,
                no_path_lem (dir ∷ []) after none_after,
              )
              refl,
    )
