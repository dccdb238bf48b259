-- ===== src/Worker/Tokens/Laws.antt =====
-- The protocol of the tokens.
use building_block_runner.Prelude.{
  ℕ, ◌+◌, Bool, true, false, Option, none, some, ◌≡◌, refl, sym, ap, ◌∙◌, ◌==◌, ◌⊎◌, inl, inr,
  Bool-cases, arith, ◌||◌,
}
use building_block_runner.Worker.Tokens.{
  Token, work, done, norun, failed, stop, stopped, Fetch, fetched, status_error, other_error,
  answer_to_fetch, Worker, waiting, fetching, stopping, halted, Manager, handed_out, run, Step,
  take_work, take_stop, answer, leave, hand_out_after, handle_stopped, choose, send, Reachable,
  start, next, shut_down,
}

abbrev pub held : Option Token → ℕ
held none = 0
held (some t) = 1

abbrev pub working : Worker → ℕ
working waiting = 0
working fetching = 1
working stopping = 1
working halted = 0

-- The tokens on the way: in a channel, with the worker, or with a goroutine that hands one out.
abbrev pub in_flight : Manager → ℕ
in_flight m = working m.worker + held m.worker_in + held m.manager_in + m.handouts + held m.sending

-- What may lie in the channel to the worker, and in the one to the manager.
abbrev pub is_order : Option Token → Bool
is_order none = true
is_order (some work) = true
is_order (some stop) = true
is_order (some _) = false

abbrev pub is_answer : Option Token → Bool
is_answer none = true
is_answer (some done) = true
is_answer (some norun) = true
is_answer (some failed) = true
is_answer (some stopped) = true
is_answer (some _) = false

abbrev pub is_stopped : Option Token → Bool
is_stopped (some stopped) = true
is_stopped _ = false

abbrev pub is_stop : Option Token → Bool
is_stop (some stop) = true
is_stop _ = false

abbrev pub is_halted : Worker → Bool
is_halted halted = true
is_halted _ = false

abbrev pub is_stopping : Worker → Bool
is_stopping stopping = true
is_stopping _ = false

-- The worker has halted exactly where `stopped` lies in the channel or was handled.
pub record IsSound (m : Manager) : Type 0 where
  pub one : in_flight m + m.stopped_workers ≡ 1
  pub orders : is_order m.worker_in ≡ true
  pub chosen : is_order m.sending ≡ true
  pub answers : is_answer m.manager_in ≡ true
  pub ended : m.handling ≡ (m.stopped_workers == 0)
  pub asked :
      (is_stop m.worker_in || (is_stop m.sending || (is_stopping m.worker || is_halted m.worker)))
        ≡ true
      → m.shutdown ≡ true
  pub halts : is_halted m.worker ≡ (is_stopped m.manager_in || m.stopped_workers == 1)

run-IsSound : IsSound run
run-IsSound = record {
  one = refl;
  orders = refl;
  chosen = refl;
  answers = refl;
  ended = refl;
  asked = λ h. ground arith;
  halts = refl;
}

answer_is_answer : (f : Fetch) → is_answer (some (answer_to_fetch f)) ≡ true
answer_is_answer fetched = refl
answer_is_answer (status_error code) = ground arith
answer_is_answer (other_error text) = ground arith

answer_not_stopped : (f : Fetch) → is_stopped (some (answer_to_fetch f)) ≡ false
answer_not_stopped fetched = refl
answer_not_stopped (status_error code) = ground arith
answer_not_stopped (other_error text) = ground arith

token_not_stopped :
    (t : Token) → (t ≡ done) ⊎ (t ≡ norun) ⊎ (t ≡ failed) → is_stopped (some t) ≡ false
token_not_stopped t (inl is) = ap (λ x. is_stopped (some x)) is
token_not_stopped t (inr (inl is)) = ap (λ x. is_stopped (some x)) is
token_not_stopped t (inr (inr is)) = ap (λ x. is_stopped (some x)) is

handed_out_order : (b : Bool) → is_order (some (handed_out b)) ≡ true
handed_out_order true = refl
handed_out_order false = refl

handed_out_stop : (b : Bool) → is_stop (some (handed_out b)) ≡ b
handed_out_stop true = refl
handed_out_stop false = refl

Step-IsSound : (m m' : Manager) → Step m m' → IsSound m → IsSound m'
Step-IsSound m m' (take_work is w) h = record {
  one = omega (arith, h.one, ap working is, ap held w);
  orders = refl;
  chosen = h.chosen;
  answers = h.answers;
  ended = h.ended;
  asked = λ a. h.asked (ground (arith, a, ap is_halted is, ap is_stopping is, ap is_stop w));
  halts = sym (ap is_halted is) ∙ h.halts;
}
Step-IsSound m m' (take_stop is w) h = record {
  one = omega (arith, h.one, ap working is, ap held w);
  orders = refl;
  chosen = h.chosen;
  answers = h.answers;
  ended = h.ended;
  asked = λ a. h.asked (ground (arith, ap is_stop w));
  halts = sym (ap is_halted is) ∙ h.halts;
}
Step-IsSound m m' (answer f is none_yet) h = record {
  one = omega (arith, h.one, ap working is, ap held none_yet);
  orders = h.orders;
  chosen = h.chosen;
  answers = answer_is_answer f;
  ended = h.ended;
  asked = λ a. h.asked (ground (arith, a));
  halts = ground (arith, answer_not_stopped f, h.halts, ap is_halted is, ap is_stopped none_yet);
}
Step-IsSound m m' (leave is none_yet) h = record {
  one = omega (arith, h.one, ap working is, ap held none_yet);
  orders = h.orders;
  chosen = h.chosen;
  answers = refl;
  ended = h.ended;
  asked = λ a. h.asked (ground (arith, ap is_stopping is));
  halts = refl;
}
Step-IsSound m m' (hand_out_after t kind on w) h = record {
  one = omega (arith, h.one, ap held w);
  orders = h.orders;
  chosen = h.chosen;
  answers = refl;
  ended = h.ended;
  asked = h.asked;
  halts = ground (arith, h.halts, ap is_stopped w, token_not_stopped t kind);
}
Step-IsSound m m' (handle_stopped on w) h = record {
  one = omega (arith, h.one, ap held w);
  orders = h.orders;
  chosen = h.chosen;
  answers = refl;
  ended = ground (arith, h.one, ap held w);
  asked = h.asked;
  halts = ground (arith, h.halts, h.one, ap held w, ap is_stopped w);
}
Step-IsSound m m' (choose n more none_yet) h = record {
  one = omega (arith, h.one, more, ap held none_yet);
  orders = h.orders;
  chosen = handed_out_order m.shutdown;
  answers = h.answers;
  ended = h.ended;
  asked = λ a. elim (Bool-cases m.shutdown) [
    | inl is ↦ is
    | inr is ↦ h.asked (ground (arith, a, is, handed_out_stop m.shutdown))
  ];
  halts = h.halts;
}
Step-IsSound m m' (send t w none_yet) h = record {
  one = omega (arith, h.one, ap held w, ap held none_yet);
  orders = sym (ap is_order w) ∙ h.chosen;
  chosen = refl;
  answers = h.answers;
  ended = h.ended;
  asked = λ a. h.asked (ground (arith, a, ap is_stop w));
  halts = h.halts;
}

shut_down-IsSound : (m : Manager) → IsSound m → IsSound (record m { shutdown = true })
shut_down-IsSound m h = record {
  one = h.one;
  orders = h.orders;
  chosen = h.chosen;
  answers = h.answers;
  ended = h.ended;
  asked = λ a. refl;
  halts = h.halts;
}

-- In every reachable state the tokens on the way and the workers whose end was handled are one
-- in all. What lies in a channel is a token that its reader knows. The manager handles tokens
-- exactly until it has handled the end of a worker; the worker has halted exactly if its
-- `stopped` lies in the channel or was handled; and where the worker has halted or `stop` is on
-- its way, Stop was called.
pub Reachable-IsSound : (m : Manager) → Reachable m → IsSound m
Reachable-IsSound m start = run-IsSound
Reachable-IsSound m' (next m _ before step) = Step-IsSound m m' step (Reachable-IsSound m before)
Reachable-IsSound m' (shut_down m before) = shut_down-IsSound m (Reachable-IsSound m before)
