-- ===== src/TfCmd/Triple.antt =====
-- What a command establishes on each way out: it returns, fails, or panics.
use building_block_runner.Prelude.{◌≡◌, refl, Bool, true, false, if◌then◌else◌}
use building_block_runner.TfCmd.Outside.{Error, Result, ok, err, panic}
use building_block_runner.TfCmd.Exec.{Cmd, Exec, ◌>>=◌, pure, lift, catch, gets, modify_state}
use building_block_runner.TfCmd.Keeps.{Keeps}

abbrev pub Ends :
    {A : Type 0} → (A → Cmd → Type 0) → (Cmd → Type 0) → (Cmd → Type 0) → Result A → Cmd → Type 0
Ends Q E X (ok a) s = Q a s
Ends Q E X (err e) s = E s
Ends Q E X panic s = X s

pub record Triple {A : Type 0} (P : Cmd → Type 0) (m : Exec A) (Q : A → Cmd → Type 0)
    (E X : Cmd → Type 0) : Type 0 where
  pub at : (s : Cmd) → P s → Ends Q E X (m s).0 (m s).1

-- A postcondition that does not look at the value returned.
abbrev pub Always : {A : Type 0} → (Cmd → Type 0) → A → Cmd → Type 0
Always Q a s = Q s

module _ {E X : Cmd → Type 0} where
  Triple-continue :
      {A B : Type 0} {Q : A → Cmd → Type 0} {R : B → Cmd → Type 0} (r : Result A) (f : A → Exec B)
      → ((a : A) → Triple (Q a) (f a) R E X)
      → (s : Cmd) → Ends Q E X r s
      → Ends R E X ((lift r >>= f) s).0 ((lift r >>= f) s).1
  unfolding ◌>>=◌ lift
  Triple-continue (ok a) f tf s h = (tf a).at s h
  Triple-continue (err e) f tf s h = h
  Triple-continue panic f tf s h = h

  Ends-caught :
      {A : Type 0} {Q : A → Cmd → Type 0} {F : Cmd → Type 0} (r : Result A) (f : Error → Exec A)
      → ((e : Error) → Triple F (f e) Q E X)
      → (s : Cmd) → Ends Q F X r s
      → Ends Q E X (catch (lift r) f s).0 (catch (lift r) f s).1
  unfolding catch lift
  Ends-caught (ok a) f tf s h = h
  Ends-caught (err e) f tf s h = (tf e).at s h
  Ends-caught panic f tf s h = h

module _ {P E X : Cmd → Type 0} where
  pub Triple-pure : {A : Type 0} (a : A) → Triple P (pure a) (Always P) E X
  unfolding pure
  Triple-pure a = record { at = λ s h. h }

  pub Triple-gets : {A : Type 0} (f : Cmd → A) → Triple P (gets f) (Always P) E X
  unfolding gets
  Triple-gets f = record { at = λ s h. h }

  pub Triple-modify :
      {Q : Cmd → Type 0} (f : Cmd → Cmd)
      → ((s : Cmd) → P s → Q (f s))
      → Triple P (modify_state f) (Always Q) E X
  unfolding modify_state
  Triple-modify f h = record { at = h }

  pub Triple-if :
      {A : Type 0} {Q : A → Cmd → Type 0} (b : Bool) (m n : Exec A)
      → Triple P m Q E X
      → Triple P n Q E X
      → Triple P (if b then m else n) Q E X
  Triple-if true m n tm tn = tm
  Triple-if false m n tm tn = tn

  pub Triple-bind :
      {A B : Type 0} {Q : A → Cmd → Type 0} {R : B → Cmd → Type 0} (m : Exec A) (f : A → Exec B)
      → Triple P m Q E X
      → ((a : A) → Triple (Q a) (f a) R E X)
      → Triple P (m >>= f) R E X
  unfolding ◌>>=◌ lift
  Triple-bind m f tm tf = record {
    at = λ s h. let (r, s') = m s in Triple-continue r f tf s' (tm.at s h);
  }

  -- A part that keeps `P` and may fail or panic, where `P` says enough for both.
  Ends-kept :
      {A : Type 0}
      → ((s : Cmd) → P s → E s)
      → ((s : Cmd) → P s → X s)
      → (r : Result A) (s : Cmd) → P s
      → Ends (Always P) E X r s
  Ends-kept e x (ok a) s h = h
  Ends-kept e x (err t) s h = e s h
  Ends-kept e x panic s h = x s h

  -- Each branch may use what the test found.
  pub Triple-branch :
      {A : Type 0} {Q : A → Cmd → Type 0} (b : Bool) (m n : Exec A)
      → (b ≡ true → Triple P m Q E X)
      → (b ≡ false → Triple P n Q E X)
      → Triple P (if b then m else n) Q E X
  Triple-branch true m n tm tn = tm refl
  Triple-branch false m n tm tn = tn refl

  pub Triple-kept :
      {A : Type 0} (m : Exec A)
      → ((s : Cmd) → P s → E s)
      → ((s : Cmd) → P s → X s)
      → Keeps P m
      → Triple P m (Always P) E X
  Triple-kept m e x km = record { at = λ s h. Ends-kept e x (m s).0 (m s).1 (km.at s h) }

  pub Triple-catch :
      {A : Type 0} {Q : A → Cmd → Type 0} {F : Cmd → Type 0} (m : Exec A) (f : Error → Exec A)
      → Triple P m Q F X
      → ((e : Error) → Triple F (f e) Q E X)
      → Triple P (catch m f) Q E X
  unfolding catch lift
  Triple-catch m f tm tf = record {
    at = λ s h. let (r, s') = m s in Ends-caught r f tf s' (tm.at s h);
  }

Ends-panic :
    {A : Type 0} (Q : A → Cmd → Type 0) (E : Cmd → Type 0) {X Y : Cmd → Type 0}
    → ((s : Cmd) → X s → Y s)
    → (r : Result A) (s : Cmd) → Ends Q E X r s
    → Ends Q E Y r s
Ends-panic Q E f (ok a) s h = h
Ends-panic Q E f (err e) s h = h
Ends-panic Q E f panic s h = f s h

-- Less is known after a panic.
pub Triple-panic :
    {A : Type 0} {P E X Y : Cmd → Type 0} {Q : A → Cmd → Type 0} (m : Exec A)
    → ((s : Cmd) → X s → Y s)
    → Triple P m Q E X
    → Triple P m Q E Y
Triple-panic m f t = record { at = λ s h. Ends-panic _ _ f (m s).0 (m s).1 (t.at s h) }
