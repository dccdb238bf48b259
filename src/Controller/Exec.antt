-- ===== src/Controller/Exec.antt =====
-- Calls in order, with errors and panics: what a method returns, and all that happened until then.
use building_block_runner.Prelude.{Bool, true, false, Option, none, some, ◌∷◌}
use building_block_runner.Controller.World.{
  Error, Answer, answer, refusal, Metric, Event, counted, History,
}

-- `crash` is a run-time panic, which ends the process.
pub data Go (E A : Type 0) : Type 0 where
  done : A → Go E A
  failure : E → Go E A
  crash : Go E A

abbrev pub Exec : Type 0 → Type 0 → Type 0
Exec E A = History → Go E A × History

abbrev continue : {E A B : Type 0} → Go E A → (A → Exec E B) → Exec E B
continue (done a) f h = f a h
continue (failure e) f h = (failure e, h)
continue crash f h = (crash, h)

infixl 5 ◌>>=◌ ◌>>◌
unfoldable pub ◌>>=◌ : {E A B : Type 0} → Exec E A → (A → Exec E B) → Exec E B
◌>>=◌ m f h = let (r, h') = m h in continue r f h'

abbrev pub ◌>>◌ : {E A B : Type 0} → Exec E A → Exec E B → Exec E B
m >> n = m >>= λ _. n

unfoldable pub pure : {E A : Type 0} → A → Exec E A
pure a h = (done a, h)

unfoldable pub raise : {E A : Type 0} → E → Exec E A
raise e h = (failure e, h)

unfoldable pub raise_crash : {E A : Type 0} → Exec E A
raise_crash h = (crash, h)

abbrev handle : {E F A B : Type 0} → Go E A → (A → Exec F B) → (E → Exec F B) → Exec F B
handle (done a) f g h = f a h
handle (failure e) f g h = g e h
handle crash f g h = (crash, h)

-- `if err != nil { … } else { … }`
unfoldable pub on_error : {E F A B : Type 0} → Exec E A → (E → Exec F B) → (A → Exec F B) → Exec F B
on_error m g f h = let (r, h') = m h in handle r f g h'

-- `nil` dereferenced, or a panic of a callee that may have no value.
unfoldable pub value_or_crash : {E A : Type 0} → Option A → Exec E A
unfolding pure raise_crash
value_or_crash none = raise_crash
value_or_crash (some a) = pure a

unfoldable pub answered : {A : Type 0} → Answer A → Go Error A
answered (answer a) = done a
answered (refusal e) = failure e

abbrev pub is_answer : {A : Type 0} → Answer A → Bool
is_answer (answer a) = true
is_answer (refusal e) = false

-- One call that may fail: the event tells whether it succeeded.
unfoldable pub call : {A : Type 0} → (Answer A → Event) → (History → Answer A) → Exec Error A
call event reply h = let r = reply h in (answered r, event r ∷ h)

-- One call that says what it found.
unfoldable pub ask : {E A : Type 0} → (A → Event) → (History → A) → Exec E A
ask event reply h = let a = reply h in (done a, event a ∷ h)

unfoldable pub note : {E : Type 0} → Event → Exec E (Unit {0})
note event h = (done tt, event ∷ h)

abbrev pub count : {E : Type 0} → Metric → Exec E (Unit {0})
count metric = note (counted metric)

-- `if b { return nil }` before the rest.
unfoldable pub unless : {E : Type 0} → Bool → Exec E (Unit {0}) → Exec E (Unit {0})
unfolding pure
unless true m = pure tt
unless false m = m

-- What depends on all that happened, without a call.
unfoldable pub read : {E A : Type 0} → (History → A) → Exec E A
read f h = (done (f h), h)
