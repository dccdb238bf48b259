-- ===== src/Worker/Tokens/Liveness.antt =====
-- The protocol of the tokens never gets stuck.
use building_block_runner.Prelude.{
  ℕ, zero, suc, true, Option, none, some, ◌≡◌, refl, ap, inl, inr, Option-cases, Bool-cases, arith,
}
use building_block_runner.Worker.Tokens.{
  Token, work, done, norun, failed, stop, stopped, fetched, Worker, waiting, fetching, stopping,
  halted, Manager, Step, take_work, take_stop, answer, leave, hand_out_after, handle_stopped,
  choose, send, Reachable,
}
use building_block_runner.Worker.Tokens.Laws.{
  IsSound, Reachable-IsSound, held, working, is_order, is_answer, is_stopped, is_halted,
}

empty_lem : (o : Option Token) → held o ≡ 0 → o ≡ none
empty_lem none h = refl
empty_lem (some t) h = ground arith

held-is_stopped : (o : Option Token) → is_stopped o ≡ true → held o ≡ 1
held-is_stopped none h = ground arith
held-is_stopped (some t) h = refl

module _ (m : Manager) (h : IsSound m) (on : m.handling ≡ true) where
  abbrev Moves : Type 0
  Moves = (m' : Manager) × Step m m'

  with_answer : (t : Token) → m.manager_in ≡ some t → Moves
  with_answer done w = (_, hand_out_after done (inl refl) on w)
  with_answer norun w = (_, hand_out_after norun (inr (inl refl)) on w)
  with_answer failed w = (_, hand_out_after failed (inr (inr refl)) on w)
  with_answer stopped w = (_, handle_stopped on w)
  with_answer work w = ground (arith, h.answers, ap is_answer w)
  with_answer stop w = ground (arith, h.answers, ap is_answer w)

  with_order : (t : Token) → m.worker ≡ waiting → m.worker_in ≡ some t → Moves
  with_order work is w = (_, take_work is w)
  with_order stop is w = (_, take_stop is w)
  with_order done is w = ground (arith, h.orders, ap is_order w)
  with_order norun is w = ground (arith, h.orders, ap is_order w)
  with_order failed is w = ground (arith, h.orders, ap is_order w)
  with_order stopped is w = ground (arith, h.orders, ap is_order w)

  with_handout :
      (n : ℕ)
      → m.handouts ≡ n
      → working m.worker ≡ 0
      → m.worker_in ≡ none
      → m.manager_in ≡ none
      → m.sending ≡ none
      → Moves
  with_handout zero is idle w a c =
      ground (arith, h.one, h.ended, on, is, idle, ap held w, ap held a, ap held c)
  with_handout (suc n) is idle w a c = (_, choose n is c)

  idle_moves : working m.worker ≡ 0 → m.worker_in ≡ none → Moves
  idle_moves idle w = elim (Option-cases m.manager_in) [
    | inr (t, a) ↦ with_answer t a
    | inl a ↦ elim (Option-cases m.sending) [
      | inr (t, c) ↦ (_, send t c w)
      | inl c ↦ with_handout m.handouts refl idle w a c
    ]
  ]

  moves : (k : Worker) → m.worker ≡ k → Moves
  moves fetching is =
      (_, answer fetched is (empty_lem m.manager_in (omega (arith, h.one, ap working is))))
  moves stopping is = (_, leave is (empty_lem m.manager_in (omega (arith, h.one, ap working is))))
  moves waiting is = elim (Option-cases m.worker_in) [
    | inr (t, w) ↦ with_order t is w
    | inl w ↦ idle_moves (ap working is) w
  ]
  moves halted is = elim (Option-cases m.worker_in) [
    | inr (t, w) ↦ elim (Bool-cases (is_stopped m.manager_in)) [
      | inl x ↦ ground (arith, h.one, ap held w, held-is_stopped m.manager_in x)
      | inr x ↦ ground (arith, h.halts, h.ended, on, ap is_halted is, x)
    ]
    | inl w ↦ idle_moves (ap working is) w
  ]

abbrev pub CanMove : Manager → Type 0
CanMove m = (m' : Manager) × Step m m'

-- The manager and the worker never wait for each other for ever: in every reachable state in which
-- the manager still handles tokens, one of the goroutines can move, without a call of Stop.
pub Reachable-Step : (m : Manager) → Reachable m → m.handling ≡ true → CanMove m
Reachable-Step m before on = moves m (Reachable-IsSound m before) on m.worker refl
