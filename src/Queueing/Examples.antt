-- ===== src/Queueing/Examples.antt =====
-- Two logical queues of the capacity 2 for one worker.
use behavioral_model.Base.{
  ℕ, zero, suc, ◌^◌, ◌<◌, ◌≡◌, refl, sym, ap, subst, some, List, [], ◌∷◌, ◌++◌, get_elem?, arith,
}
use mathlib.Core.List.{Memᴰ}
use mathlib.Core.List.Memᴰ
use behavioral_model.Queueing.{
  QueueElement, QueueInfo, QueueingLogic, done, create, push_front, pop_back,
}
use behavioral_model.Queueing.Fifo.{Inv, tally, oldest_first, push_front-Inv, pop_back-Inv}

abbrev one_worker : ℕ → ℕ
one_worker queue_id = 0

-- The item 9 waits in the queue 1.
abbrev waiting : QueueElement ℕ
waiting = record { e = 9; queue_id = 1 }

abbrev state : QueueingLogic ℕ
state = record {
  queues_info = record { size = 0; capacity = 2 } ∷ record { size = 1; capacity = 2 } ∷ [];
  workers_info = (waiting ∷ []) ∷ [];
}

pushes : push_front one_worker (create 2 1 2) 1 9 ≡ done state
unfolding push_front create
pushes = refl

state-Inv : Inv one_worker state
unfolding tally
state-Inv = record {
  sized = λ q info queue e w. state-sized q info queue e w;
  fits = λ q info e. (state-info q info e).0;
  capacity_fits = λ q info e. (state-info q info e).1;
  homed = λ w queue x e m. state-homed w queue x e m;
}
  where
    state-sized :
        (q : ℕ) (info : QueueInfo) (queue : List (QueueElement ℕ))
        → get_elem? state.queues_info q ≡ some info
        → get_elem? state.workers_info 0 ≡ some queue
        → info.size ≡ tally q queue
    state-sized zero info queue e w = cc (e, w)
    state-sized (suc zero) info queue e w = cc (e, w)
    state-sized (suc (suc q)) info queue e w = absurd (cc e)

    state-info :
        (q : ℕ) (info : QueueInfo)
        → get_elem? state.queues_info q ≡ some info
        → (info.size < 2 ^ 64) × (info.capacity < 2 ^ 64)
    state-info zero info e = (ground (arith, e), ground (arith, e))
    state-info (suc zero) info e = (ground (arith, e), ground (arith, e))
    state-info (suc (suc q)) info e = absurd (cc e)

    state-homed :
        (w : ℕ) (queue : List (QueueElement ℕ)) (x : QueueElement ℕ)
        → get_elem? state.workers_info w ≡ some queue
        → Memᴰ x queue
        → (0 ≡ w) × (info : QueueInfo) × (get_elem? state.queues_info x.queue_id ≡ some info)
    state-homed zero queue x e m =
        let same : waiting ∷ [] ≡ queue = cc e in
        let is = Memᴰ.eq_of_singleton (subst (λ k. Memᴰ x k) (sym same) m) in
        (
          refl,
          record { size = 1; capacity = 2 },
          ap (λ (y : QueueElement ℕ). get_elem? state.queues_info y.queue_id) is,
        )
    state-homed (suc w) queue x e m = absurd (cc e)

push_front-Inv_example :
    (s' : QueueingLogic ℕ) × (queue' : List (QueueElement ℕ)) × (push_front one_worker state 0 8
      ≡ done s')
    × (get_elem? s'.workers_info 0 ≡ some queue')
    × (oldest_first queue' ≡ oldest_first (waiting ∷ []) ++ (record { e = 8; queue_id = 0 } ∷ []))
    × Inv one_worker s'
push_front-Inv_example =
    push_front-Inv one_worker state 0 8 (record { size = 0; capacity = 2 }) (waiting ∷ []) state-Inv
      refl refl (omega arith)

pop_back-Inv_example :
    (oldest : QueueElement ℕ) × (s' : QueueingLogic ℕ) × (queue' : List (QueueElement ℕ))
    × (pop_back state 0 ≡ done (oldest, s'))
    × (get_elem? s'.workers_info 0 ≡ some queue')
    × (oldest_first (waiting ∷ []) ≡ oldest ∷ oldest_first queue')
    × Inv one_worker s'
pop_back-Inv_example = pop_back-Inv one_worker state 0 waiting [] state-Inv refl
