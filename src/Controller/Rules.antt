-- ===== src/Controller/Rules.antt =====
-- What a sequence of calls establishes on each way out: it returns, fails, or panics.
use building_block_runner.Prelude.{
  ◌≡◌, refl, String, Bool, true, false, Option, none, some, ◌∷◌, if◌then◌else◌,
}
use building_block_runner.Controller.World.{Answer, answer, refusal, Event, History}
use building_block_runner.Controller.Exec.{
  Go, done, failure, crash, Exec, ◌>>=◌, pure, raise, raise_crash, on_error, value_or_crash,
  answered, call, ask, note, unless, read,
}

abbrev pub Ends :
    {E A : Type 0}
    → (A → History → Type 0)
    → (E → History → Type 0)
    → (History → Type 0)
    → Go E A
    → History
    → Type 0
Ends Q F X (done a) h = Q a h
Ends Q F X (failure e) h = F e h
Ends Q F X crash h = X h

pub record Triple {E A : Type 0} (P : History → Type 0) (m : Exec E A) (Q : A → History → Type 0)
    (F : E → History → Type 0) (X : History → Type 0) : Type 0 where
  pub at : (h : History) → P h → Ends Q F X (m h).0 (m h).1

-- A condition that does not look at the value.
abbrev pub Always : {A : Type 0} → (History → Type 0) → A → History → Type 0
Always Q a h = Q h

module _ {E A : Type 0} {X : History → Type 0} {Q : A → History → Type 0}
    {F : E → History → Type 0} where
  Ends-imply :
      {X' : History → Type 0} {Q' : A → History → Type 0} {F' : E → History → Type 0}
      → ((a : A) (h : History) → Q' a h → Q a h)
      → ((e : E) (h : History) → F' e h → F e h)
      → ((h : History) → X' h → X h)
      → (r : Go E A) (h : History) → Ends Q' F' X' r h
      → Ends Q F X r h
  Ends-imply after failed crashed (done a) h q = after a h q
  Ends-imply after failed crashed (failure e) h q = failed e h q
  Ends-imply after failed crashed crash h q = crashed h q

  Triple-continue :
      {B : Type 0} {R : B → History → Type 0} (r : Go E A) (f : A → Exec E B)
      → ((a : A) → Triple (Q a) (f a) R F X)
      → (h : History) → Ends Q F X r h
      → Ends R F X (((λ (_ : History). (r, h)) >>= f) h).0 (((λ (_ : History). (r, h)) >>= f) h).1
  unfolding ◌>>=◌
  Triple-continue (done a) f tf h q = (tf a).at h q
  Triple-continue (failure e) f tf h q = q
  Triple-continue crash f tf h q = q

  Triple-handle :
      {D B : Type 0} {R : B → History → Type 0} {G : D → History → Type 0} (r : Go E A)
      (g : E → Exec D B) (f : A → Exec D B)
      → ((e : E) → Triple (F e) (g e) R G X)
      → ((a : A) → Triple (Q a) (f a) R G X)
      → (h : History) → Ends Q F X r h
      → Ends R G X
          (on_error (λ (_ : History). (r, h)) g f h).0
          (on_error (λ (_ : History). (r, h)) g f h).1
  unfolding on_error
  Triple-handle (done a) g f tg tf h q = (tf a).at h q
  Triple-handle (failure e) g f tg tf h q = (tg e).at h q
  Triple-handle crash g f tg tf h q = q

module _ {E A : Type 0} {P X : History → Type 0} {Q : A → History → Type 0}
    {F : E → History → Type 0} where
  pub Triple-pure : (a : A) → ((h : History) → P h → Q a h) → Triple P (pure a) Q F X
  unfolding pure
  Triple-pure a imply = record { at = imply }

  pub Triple-raise : (e : E) → ((h : History) → P h → F e h) → Triple P (raise e) Q F X
  unfolding raise
  Triple-raise e imply = record { at = imply }

  pub Triple-value_or_crash :
      (o : Option A)
      → ((a : A) (h : History) → P h → Q a h)
      → ((h : History) → P h → X h)
      → Triple P (value_or_crash o) Q F X
  unfolding value_or_crash pure raise_crash
  Triple-value_or_crash (some a) imply crashes = record { at = imply a }
  Triple-value_or_crash none imply crashes = record { at = crashes }

  pub Triple-if :
      (b : Bool) (m n : Exec E A)
      → (b ≡ true → Triple P m Q F X)
      → (b ≡ false → Triple P n Q F X)
      → Triple P (if b then m else n) Q F X
  Triple-if true m n tm tn = tm refl
  Triple-if false m n tm tn = tn refl

  pub Triple-ask :
      (event : A → Event) (reply : History → A)
      → ((h : History) → P h → Q (reply h) (event (reply h) ∷ h))
      → Triple P (ask event reply) Q F X
  unfolding ask
  Triple-ask event reply imply = record { at = imply }

  pub Triple-read : (f : History → A) → ((h : History) → P h → Q (f h) h) → Triple P (read f) Q F X
  unfolding read
  Triple-read f imply = record { at = imply }

  -- A weaker condition before, stronger ones after.
  pub Triple-imply :
      {P' X' : History → Type 0} {Q' : A → History → Type 0} {F' : E → History → Type 0}
      (m : Exec E A)
      → ((h : History) → P h → P' h)
      → ((a : A) (h : History) → Q' a h → Q a h)
      → ((e : E) (h : History) → F' e h → F e h)
      → ((h : History) → X' h → X h)
      → Triple P' m Q' F' X'
      → Triple P m Q F X
  Triple-imply m before after failed crashed t = record {
    at = λ h p. Ends-imply after failed crashed (m h).0 (m h).1 (t.at h (before h p));
  }

  pub Triple-bind :
      {B : Type 0} {R : B → History → Type 0} (m : Exec E A) (f : A → Exec E B)
      → Triple P m Q F X
      → ((a : A) → Triple (Q a) (f a) R F X)
      → Triple P (m >>= f) R F X
  unfolding ◌>>=◌
  Triple-bind m f tm tf = record { at = λ h p. Triple-continue (m h).0 f tf (m h).1 (tm.at h p) }

  pub Triple-on_error :
      {D B : Type 0} {R : B → History → Type 0} {G : D → History → Type 0} (m : Exec E A)
      (g : E → Exec D B) (f : A → Exec D B)
      → Triple P m Q F X
      → ((e : E) → Triple (F e) (g e) R G X)
      → ((a : A) → Triple (Q a) (f a) R G X)
      → Triple P (on_error m g f) R G X
  unfolding on_error
  Triple-on_error m g f tm tg tf = record {
    at = λ h p. Triple-handle (m h).0 g f tg tf (m h).1 (tm.at h p);
  }

module _ {E : Type 0} {P X : History → Type 0} {Q : Unit {0} → History → Type 0}
    {F : E → History → Type 0} where
  pub Triple-note :
      (event : Event) → ((h : History) → P h → Q tt (event ∷ h)) → Triple P (note event) Q F X
  unfolding note
  Triple-note event imply = record { at = imply }

  pub Triple-unless :
      (b : Bool) (m : Exec E (Unit {0}))
      → (b ≡ true → (h : History) → P h → Q tt h)
      → (b ≡ false → Triple P m Q F X)
      → Triple P (unless b m) Q F X
  unfolding unless pure
  Triple-unless true m skip tm = record { at = skip refl }
  Triple-unless false m skip tm = tm refl

Ends-answered :
    {A : Type 0} (Q : A → History → Type 0) (F : String → History → Type 0) (X : History → Type 0)
    (event : Answer A → Event) (h : History) (r : Answer A) {s : Answer A}
    → ((a : A) → s ≡ answer a → Q a (event (answer a) ∷ h))
    → ((e : String) → F e (event (refusal e) ∷ h))
    → s ≡ r
    → Ends Q F X (answered r) (event r ∷ h)
unfolding answered
Ends-answered Q F X event h (answer a) succeed fail e = succeed a e
Ends-answered Q F X event h (refusal e) succeed fail same = fail e

module _ {A : Type 0} {P X : History → Type 0} {Q : A → History → Type 0}
    {F : String → History → Type 0} where
  pub Triple-call :
      (event : Answer A → Event) (reply : History → Answer A)
      → ((h : History) (a : A) → P h → reply h ≡ answer a → Q a (event (answer a) ∷ h))
      → ((h : History) (e : String) → P h → F e (event (refusal e) ∷ h))
      → Triple P (call event reply) Q F X
  unfolding call answered
  Triple-call event reply succeed fail = record {
    at = λ h p. Ends-answered Q F X event h (reply h) (λ a. succeed h a p) (λ e. fail h e p) refl;
  }

-- A fact that does not look at the history.
pub Triple-given :
    {E A : Type 0} {P X : History → Type 0} {Q : A → History → Type 0} {F : E → History → Type 0}
    {C : Type 0} {m : Exec E A}
    → (C → Triple P m Q F X)
    → Triple (λ h. P h × C) m Q F X
Triple-given t = record { at = λ h p. (t p.1).at h p.0 }

-- A weaker condition before.
pub Triple-from :
    {E A : Type 0} {P X : History → Type 0} {Q : A → History → Type 0} {F : E → History → Type 0}
    {P' : History → Type 0} {m : Exec E A}
    → ((h : History) → P h → P' h)
    → Triple P' m Q F X
    → Triple P m Q F X
Triple-from before t = record { at = λ h p. t.at h (before h p) }

-- A property of the history that is reached on every way out.
pub run_keeps_from :
    {E A : Type 0} {P R : History → Type 0} {m : Exec E A}
    → Triple P m (Always R) (Always R) R
    → (h : History) → P h
    → R (m h).1
run_keeps_from {E} {A} {P} {R} {m} t h p = same_lem (m h).0 (m h).1 (t.at h p)
  where
    same_lem : (r : Go E A) (h : History) → Ends (Always R) (Always R) R r h → R h
    same_lem (done a) h p = p
    same_lem (failure e) h p = p
    same_lem crash h p = p

-- One that is kept.
pub run_keeps :
    {E A : Type 0} {P : History → Type 0} {m : Exec E A}
    → Triple P m (Always P) (Always P) P
    → (h : History) → P h
    → P (m h).1
run_keeps = run_keeps_from
