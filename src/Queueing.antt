-- ===== src/Queueing.antt =====
-- modules/bm_sim/include/bm_sim/queueing.h: class QueueingLogic, logical queues that worker threads
-- share. Each call runs under the lock of its worker, so it is one step; a call that would wait is
-- `blocked`, and the exception of `at` is `out_of_range`.
pub mod Fifo
mod Examples
use behavioral_model.Base.{
  ℕ, ◌+◌, ◌-◌, ◌%◌, ◌^◌, Bool, Option, none, some, List, [], ◌∷◌, leb, if◌then◌else◌, get_elem?,
  set, replicate,
}

pub record QueueElement (T : Type 0) : Type 0 where
  pub e : T
  pub queue_id : ℕ

pub record QueueInfo : Type 0 where
  pub size : ℕ
  pub capacity : ℕ

-- The deque of a worker is a list, the front first.
pub record QueueingLogic (T : Type 0) : Type 0 where
  pub queues_info : List QueueInfo
  pub workers_info : List (List (QueueElement T))

pub data Outcome (S : Type 0) : Type 0 where
  done : S → Outcome S
  blocked out_of_range : Outcome S

-- The back of a deque and the rest, from its front and the others.
unfoldable pub split_back : {T : Type 0} → T → List T → List T × T
split_back x [] = ([], x)
split_back x (y ∷ ys) = let (rest, back) = split_back y ys in (x ∷ rest, back)

module _ {T : Type 0} where
  unfoldable pub create : ℕ → ℕ → ℕ → QueueingLogic T
  create nb_queues nb_workers capacity = record {
    queues_info = replicate nb_queues (record { size = 0; capacity = capacity });
    workers_info = replicate nb_workers [];
  }

  unfoldable pub push_front : (ℕ → ℕ) → QueueingLogic T → ℕ → T → Outcome (QueueingLogic T)
  push_front map_to_worker s queue_id item = elim (get_elem? s.queues_info queue_id) [
    | none ↦ out_of_range
    | some q_info ↦ elim (get_elem? s.workers_info (map_to_worker queue_id)) [
      | none ↦ out_of_range
      | some queue ↦
          if leb q_info.capacity q_info.size
          then blocked
          else done (record {
            queues_info =
                set s.queues_info queue_id (record q_info { size = (q_info.size + 1) % 2 ^ 64 });
            workers_info =
                set s.workers_info (map_to_worker queue_id)
                  (record { e = item; queue_id = queue_id } ∷ queue);
          })
    ]
  ]

  -- The element and its queue, and the state; size-- wraps at 0.
  unfoldable pub pop_back : QueueingLogic T → ℕ → Outcome (QueueElement T × QueueingLogic T)
  unfolding split_back
  pop_back s worker_id = elim (get_elem? s.workers_info worker_id) [
    | none ↦ out_of_range
    | some [] ↦ blocked
    | some (x ∷ xs) ↦
        let (rest, back) = split_back x xs in
        elim (get_elem? s.queues_info back.queue_id) [
          | none ↦ out_of_range
          | some q_info ↦ done (
            back,
            record {
              queues_info =
                  set s.queues_info back.queue_id
                    (record q_info { size = (q_info.size + (2 ^ 64 - 1)) % 2 ^ 64 });
              workers_info = set s.workers_info worker_id rest;
            },
          )
        ]
  ]

  unfoldable pub size : (ℕ → ℕ) → QueueingLogic T → ℕ → Outcome ℕ
  size map_to_worker s queue_id = elim (get_elem? s.queues_info queue_id) [
    | none ↦ out_of_range
    | some q_info ↦ elim (get_elem? s.workers_info (map_to_worker queue_id)) [
      | none ↦ out_of_range
      | some queue ↦ done q_info.size
    ]
  ]

  unfoldable pub set_capacity : (ℕ → ℕ) → QueueingLogic T → ℕ → ℕ → Outcome (QueueingLogic T)
  set_capacity map_to_worker s queue_id c = elim (get_elem? s.queues_info queue_id) [
    | none ↦ out_of_range
    | some q_info ↦ elim (get_elem? s.workers_info (map_to_worker queue_id)) [
      | none ↦ out_of_range
      | some queue ↦
          done
            (record s { queues_info = set s.queues_info queue_id (record q_info { capacity = c }) })
    ]
  ]
