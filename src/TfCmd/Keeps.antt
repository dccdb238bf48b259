-- ===== src/TfCmd/Keeps.antt =====
-- Invariants of a command's parts: what holds of the state before a part holds after it, whether the
-- part returns, fails or panics. Used for tfcmd.go and what it calls.
use building_block_runner.Prelude.{
  String, Bool, true, false, Option, none, some, List, [], ◌∷◌, ◌≡◌, refl, ◌<>◌, if◌then◌else◌,
  arith,
}
use building_block_runner.TfCmd.Outside.{
  Error, Result, ok, err, panic, Event, published, apply_fresh, apply_plan, tf_plan, tf_destroy,
  upload_artifact, Reply, History,
}
use building_block_runner.TfCmd.Exec.{
  Cmd, Exec, ◌>>=◌, pure, raise, raise_panic, lift, catch, gets, modify_state, write_log,
  println_to_update_logs, write_all, note, ask, deferred, when_some, without_workspaces,
}

pub record Keeps {A : Type 0} (P : Cmd → Type 0) (m : Exec A) : Type 0 where
  pub at : (s : Cmd) → P s → P (m s).1

-- The events that only a command itself causes, none of the parts that the commands share.
abbrev pub is_major : Event → Bool
is_major (published r) = true
is_major apply_fresh = true
is_major (apply_plan f) = true
is_major (tf_plan f) = true
is_major (tf_destroy b) = true
is_major (upload_artifact u d) = true
is_major _ = false

-- A property of the state that the log and minor events leave as it is.
pub record Stable (P : Cmd → Type 0) : Type 0 where
  pub keeps_log : (text : String) (s : Cmd) → P s → P (write_log text s)
  pub keeps_note : (e : Event) (s : Cmd) → is_major e ≡ false → P s → P (note e s)
  pub keeps_workspaces : (s : Cmd) → P s → P (without_workspaces s)

module _ {A : Type 0} {P : Cmd → Type 0} where
  -- What leaves the state alone.
  pub Keeps-gets : (read : Cmd → A) → Keeps P (gets read)
  unfolding gets
  Keeps-gets read = record { at = λ s held. held }

  pub Keeps-raise_panic : Keeps P (raise_panic {A = A})
  unfolding raise_panic
  Keeps-raise_panic = record { at = λ s held. held }

  pub Keeps-lift : (result : Result A) → Keeps P (lift result)
  unfolding lift
  Keeps-lift result = record { at = λ s held. held }

  pub Keeps-pure : (value : A) → Keeps P (pure value)
  unfolding pure
  Keeps-pure value = record { at = λ s held. held }

  pub Keeps-raise : (error : Error) → Keeps P (raise {A = A} error)
  unfolding raise
  Keeps-raise error = record { at = λ s held. held }

  pub Keeps-if : (b : Bool) (m n : Exec A) → Keeps P m → Keeps P n → Keeps P (if b then m else n)
  Keeps-if true m n km kn = km
  Keeps-if false m n km kn = kn

  pub Keeps-option :
      {B : Type 0} (o : Option B) (m : Exec A) (f : B → Exec A)
      → Keeps P m
      → ((b : B) → Keeps P (f b))
      → Keeps P (elim o [ none ↦ m | some b ↦ f b ])
  Keeps-option none m f km kf = km
  Keeps-option (some b) m f km kf = kf b

  pub Keeps-else : (b : Bool) (m n : Exec A) → b ≡ false → Keeps P n → Keeps P (if b then m else n)
  Keeps-else true m n h kn = ground arith
  Keeps-else false m n h kn = kn

  Keeps-continue :
      {B : Type 0} (r : Result B) (f : B → Exec A)
      → ((b : B) → Keeps P (f b))
      → (s : Cmd) → P s
      → P ((lift r >>= f) s).1
  unfolding ◌>>=◌ lift
  Keeps-continue (ok b) f kf s h = (kf b).at s h
  Keeps-continue (err e) f kf s h = h
  Keeps-continue panic f kf s h = h

  pub Keeps-bind :
      {B : Type 0} (m : Exec B) (f : B → Exec A)
      → Keeps P m
      → ((b : B) → Keeps P (f b))
      → Keeps P (m >>= f)
  unfolding ◌>>=◌ lift
  Keeps-bind m f km kf = record {
    at = λ s h. let (r, s') = m s in Keeps-continue r f kf s' (km.at s h);
  }

  Keeps-handle :
      (r : Result A) (f : Error → Exec A)
      → ((e : Error) → Keeps P (f e))
      → (s : Cmd) → P s
      → P (catch (lift r) f s).1
  unfolding catch lift
  Keeps-handle (ok b) f kf s h = h
  Keeps-handle (err e) f kf s h = (kf e).at s h
  Keeps-handle panic f kf s h = h

  pub Keeps-catch :
      (m : Exec A) (f : Error → Exec A)
      → Keeps P m
      → ((e : Error) → Keeps P (f e))
      → Keeps P (catch m f)
  unfolding catch lift
  Keeps-catch m f km kf = record {
    at = λ s h. let (r, s') = m s in Keeps-handle r f kf s' (km.at s h);
  }

module _ {P : Cmd → Type 0} where
  pub Keeps-when_some :
      {A : Type 0} (o : Option A) (f : A → Exec (Unit {0}))
      → ((a : A) → Keeps P (f a))
      → Keeps P (when_some o f)
  unfolding when_some
  Keeps-when_some none f kf = Keeps-pure tt
  Keeps-when_some (some a) f kf = kf a

pub ruleset keeps_rules = (
  Keeps-pure, Keeps-raise, Keeps-raise_panic, Keeps-lift, Keeps-gets, Keeps-if, Keeps-when_some,
  Keeps-bind, Keeps-catch, refl,
)

module _ {P : Cmd → Type 0} (stable : Stable P) where
  pub Keeps-println : (text : String) → Keeps P (println_to_update_logs text)
  unfolding println_to_update_logs modify_state
  Keeps-println text = record { at = stable.keeps_log (text <> "\n") }

  pub Keeps-note : (e : Event) → is_major e ≡ false → Keeps P (modify_state (note e))
  unfolding modify_state
  Keeps-note e minor = record { at = λ s. stable.keeps_note e s minor }

  pub write_all-keeps : (texts : List String) (s : Cmd) → P s → P (write_all texts s)
  unfolding write_all
  write_all-keeps [] s h = h
  write_all-keeps (t ∷ r) s h = write_all-keeps r (write_log t s) (stable.keeps_log t s h)

  pub Keeps-ask :
      {A : Type 0} (e : Event) (f : History → Reply A) → is_major e ≡ false → Keeps P (ask e f)
  unfolding ask
  Keeps-ask e f minor = record {
    at = λ s h. write_all-keeps (f s.events).written (note e s) (stable.keeps_note e s minor h);
  }

  pub Keeps-deferred :
      {A : Type 0} (e : Event) (m : Exec A)
      → is_major e ≡ false
      → Keeps P m
      → Keeps P (deferred e m)
  unfolding deferred
  Keeps-deferred e m minor km = record { at = λ s h. stable.keeps_note e (m s).1 minor (km.at s h) }

  pub Keeps-skip_workspaces : Keeps P (modify_state without_workspaces)
  unfolding modify_state
  Keeps-skip_workspaces = record { at = stable.keeps_workspaces }
