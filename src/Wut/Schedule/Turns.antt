-- ===== src/Wut/Schedule/Turns.antt =====
-- wut_yield of wut/src/wut.c takes turns.
use ece344_operating_system.Common.{
  ℕ, zero, suc, ◌≡◌, refl, ap, ◌∙◌, List, [], ◌∷◌, ◌++◌, length, if◌then◌else◌, append_assoc,
  append-nil,
}
use ece344_operating_system.Wut.State.{
  Thread, State, ok, bind_outcome, M, Event, returned, minus_one,
}
use ece344_operating_system.Wut.Memory.{is_empty}
use ece344_operating_system.Wut.Schedule.{switch_to_next, wut_yield}
use ece344_operating_system.Wut.Schedule.Order.{IsQueued, IsReady, order}
use ece344_operating_system.Wut.Schedule.Yield.{switch_to_next_lem}

abbrev pub rotate : List ℕ → List ℕ
rotate [] = []
rotate (x ∷ xs) = xs ++ x ∷ []

wut_yield-switch :
    (s : State) (n : Thread) (q : List Thread) → s.queue ≡ n ∷ q → wut_yield s ≡ switch_to_next s
unfolding wut_yield
wut_yield-switch s n q e =
    ap (λ (l : List Thread). if is_empty l then ok (returned minus_one) s else switch_to_next s) e

-- Where `wut_yield` can be called it returns, and the running thread goes behind all that are ready.
pub wut_yield-rotate :
    (s : State)
    → IsReady s
    → (e : Event) × (t : State) × (wut_yield s ≡ ok e t) × (order t ≡ rotate (order s)) × IsReady t
unfolding wut_yield
wut_yield-rotate s ready = go s.queue refl
  where
    go :
        (q : List Thread)
        → s.queue ≡ q
        → (e : Event) × (t : State) × (wut_yield s ≡ ok e t)
          × (order t ≡ rotate (order s))
          × IsReady t
    go [] none_ready = (returned minus_one, s, rw none_ready, rw none_ready, ready)
    go (n ∷ q) queue =
        let (p, at_p, _, _) = ready.here in
        let h : IsQueued s n = (rw queue at ready.queued).0 in
        let (e, t, run, turned, ready') = switch_to_next_lem s ready n q queue p h.0 at_p h.1 in
        (e, t, wut_yield-switch s n q queue ∙ run, turned, ready')

-- `k` calls of `wut_yield`, each by the thread that runs then.
pub yields : ℕ → M (Unit {0})
yields zero s = ok tt s
yields (suc k) s = bind_outcome (wut_yield s) (λ _. yields k)

-- After as many yields as threads stand in front of it, a thread runs, and those in front of it stand
-- behind the others, in their old order.
pub yields-turn :
    (front rest : List ℕ) (s : State)
    → IsReady s
    → order s ≡ front ++ rest
    → (t : State) × (yields (length front) s ≡ ok tt t) × (order t ≡ rest ++ front) × IsReady t
unfolding yields
yields-turn [] rest s ready e = (s, refl, rw append-nil e, ready)
yields-turn (x ∷ front) rest s ready e =
    let (_, t, run, turned, ready') = wut_yield-rotate s ready in
    let e' : order t ≡ front ++ (rest ++ x ∷ []) =
      turned ∙ ap rotate e ∙ append_assoc front rest (x ∷ []) in
    let (u, runs, turned', ready'') = yields-turn front (rest ++ x ∷ []) t ready' e' in
    (u, rw run runs, turned' ∙ append_assoc rest (x ∷ []) front, ready'')
