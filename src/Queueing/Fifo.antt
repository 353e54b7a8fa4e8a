-- ===== src/Queueing/Fifo.antt =====
-- Each worker's queue is first in, first out, and the sizes of the logical queues are right.
use behavioral_model.Base.{
  ℕ, zero, suc, ◌+◌, ◌-◌, ◌%◌, ◌^◌, ◌<◌, ◌≡◌, ◌≢◌, refl, sym, ap, subst, ◌∙◌, inl, inr, ◌⊎◌, some,
  List, [], ◌∷◌, ◌++◌, ◌==◌, if◌then◌else◌, get_elem?, set, arith, ==_refl, ==_ne, leb-false,
  get_elem?_lt, get_elem?-set_self, get_elem?-set_ne,
}
use mathlib.Core.List.{Memᴰ}
use mathlib.Core.List.Memᴰ
use native.Mathlib.Decide.{ℕ_discrete}
use behavioral_model.Queueing.{
  QueueElement, QueueInfo, QueueingLogic, done, split_back, push_front, pop_back,
}

one_less : (size n : ℕ) → size < 2 ^ 64 → size ≡ n + 1 → (size + (2 ^ 64 - 1)) % 2 ^ 64 ≡ n
one_less size n small e = omega arith

-- An element of an updated list is the new one or an old one.
set-cases :
    {B : Type 0} (xs : List B) (i k : ℕ) (b x : B)
    → get_elem? (set xs i b) k ≡ some x
    → ((i ≡ k) × (b ≡ x)) ⊎ ((i ≢ k) × (get_elem? xs k ≡ some x))
set-cases [] i k b x e = absurd (cc e)
set-cases (y ∷ xs) zero zero b x e = inl (refl, cc e)
set-cases (y ∷ xs) zero (suc k) b x e = inr ((λ same. absurd (omega (arith, same))), e)
set-cases (y ∷ xs) (suc i) zero b x e = inr ((λ same. absurd (omega (arith, same))), e)
set-cases (y ∷ xs) (suc i) (suc k) b x e = elim (set-cases xs i k b x e) [
  | inl (same, is) ↦ inl (ap suc same, is)
  | inr (other, old) ↦ inr ((λ same. other (omega (arith, same))), old)
]

module _ {T : Type 0} where
  -- The elements of a worker, the oldest first.
  unfoldable pub oldest_first : List T → List T
  oldest_first [] = []
  oldest_first (x ∷ xs) = oldest_first xs ++ (x ∷ [])

  oldest_first-split_back :
      (x : T) (xs : List T)
      → oldest_first (x ∷ xs) ≡ (split_back x xs).1 ∷ oldest_first (split_back x xs).0
  unfolding oldest_first split_back
  oldest_first-split_back x [] = refl
  oldest_first-split_back x (y ∷ ys) = ap (λ l. l ++ (x ∷ [])) (oldest_first-split_back y ys)

module _ {T : Type 0} where
  -- The number of elements of a logical queue.
  unfoldable pub tally : ℕ → List (QueueElement T) → ℕ
  tally q [] = 0
  tally q (x ∷ xs) = if x.queue_id == q then tally q xs + 1 else tally q xs

  tally-split_back :
      (q : ℕ) (x : QueueElement T) (xs : List (QueueElement T))
      → tally q (x ∷ xs) ≡ tally q ((split_back x xs).1 ∷ (split_back x xs).0)
  unfolding tally split_back
  tally-split_back q x [] = refl
  tally-split_back q x (y ∷ ys) = ground (arith, tally-split_back q y ys)

  rest-Mem :
      (x : QueueElement T) (xs : List (QueueElement T)) (y : QueueElement T)
      → Memᴰ y (split_back x xs).0
      → Memᴰ y (x ∷ xs)
  unfolding split_back
  rest-Mem x [] y m = absurd (Memᴰ.not-nil m)
  rest-Mem x (z ∷ zs) y m = elim (Memᴰ.cases_cons m) [
    | inl e ↦ Memᴰ.head e
    | inr m' ↦ Memᴰ.tail (rest-Mem z zs y m')
  ]

  back-Mem : (x : QueueElement T) (xs : List (QueueElement T)) → Memᴰ (split_back x xs).1 (x ∷ xs)
  unfolding split_back
  back-Mem x [] = Memᴰ.head refl
  back-Mem x (z ∷ zs) = Memᴰ.tail (back-Mem z zs)

  -- The size of a logical queue is the number of its elements, which all wait for its worker.
  pub record Inv (map_to_worker : ℕ → ℕ) (s : QueueingLogic T) : Type 0 where
    pub sized :
        (q : ℕ) (info : QueueInfo) (queue : List (QueueElement T))
        → get_elem? s.queues_info q ≡ some info
        → get_elem? s.workers_info (map_to_worker q) ≡ some queue
        → info.size ≡ tally q queue
    pub fits :
        (q : ℕ) (info : QueueInfo) → get_elem? s.queues_info q ≡ some info → info.size < 2 ^ 64
    pub capacity_fits :
        (q : ℕ) (info : QueueInfo) → get_elem? s.queues_info q ≡ some info → info.capacity < 2 ^ 64
    pub homed :
        (w : ℕ) (queue : List (QueueElement T)) (x : QueueElement T)
        → get_elem? s.workers_info w ≡ some queue
        → Memᴰ x queue
        → (map_to_worker x.queue_id ≡ w)
          × (info : QueueInfo) × (get_elem? s.queues_info x.queue_id ≡ some info)

  -- A state in which one logical queue and the deque of its worker are replaced.
  module _ (map_to_worker : ℕ → ℕ) (s : QueueingLogic T) (v : Inv map_to_worker s) (q : ℕ)
      (info info' : QueueInfo) (queue queue' : List (QueueElement T))
      (there : get_elem? s.queues_info q ≡ some info)
      (worker : get_elem? s.workers_info (map_to_worker q) ≡ some queue)
      (same_capacity : info'.capacity ≡ info.capacity) (fits' : info'.size < 2 ^ 64)
      (counted : info'.size ≡ tally q queue')
      (others : (i : ℕ) → q ≢ i → tally i queue' ≡ tally i queue)
      (from : (x : QueueElement T) → Memᴰ x queue' → (x.queue_id ≡ q) ⊎ Memᴰ x queue) where
    abbrev after : QueueingLogic T
    after = record {
      queues_info = set s.queues_info q info';
      workers_info = set s.workers_info (map_to_worker q) queue';
    }

    still :
        (i : ℕ) (x : QueueInfo)
        → get_elem? s.queues_info i ≡ some x
        → (y : QueueInfo) × (get_elem? after.queues_info i ≡ some y)
    still i x e = elim (ℕ_discrete q i) [
      | yes same ↦ (
        info',
        ap (get_elem? after.queues_info) (sym same)
            ∙ get_elem?-set_self s.queues_info q info' (get_elem?_lt s.queues_info q info there),
      )
      | no other ↦ (x, get_elem?-set_ne s.queues_info q i info' other ∙ e)
    ]

    after-Inv : Inv map_to_worker after
    after-Inv = record {
      sized = λ i x l e w. elim (set-cases s.queues_info q i info' x e) [
        | inl (same, is) ↦
            elim (set-cases s.workers_info (map_to_worker q) (map_to_worker i) queue' l w) [
              | inl (_, l_is) ↦ cc (same, is, l_is, counted)
              | inr (apart, _) ↦ absurd (apart (ap map_to_worker same))
            ]
        | inr (other, old) ↦
            elim (set-cases s.workers_info (map_to_worker q) (map_to_worker i) queue' l w) [
              | inl (home, l_is) ↦
                  let size_is =
                    v.sized i x queue old (ap (get_elem? s.workers_info) (sym home) ∙ worker) in
                  size_is ∙ sym (others i other) ∙ ap (tally i) l_is
              | inr (_, w_old) ↦ v.sized i x l old w_old
            ]
      ];
      fits = λ i x e. elim (set-cases s.queues_info q i info' x e) [
        | inl (_, is) ↦ subst (λ (y : QueueInfo). y.size < 2 ^ 64) is fits'
        | inr (_, old) ↦ v.fits i x old
      ];
      capacity_fits = λ i x e. elim (set-cases s.queues_info q i info' x e) [
        | inl (_, is) ↦
            subst (λ (y : QueueInfo). y.capacity < 2 ^ 64) is
              (omega (arith, same_capacity, v.capacity_fits q info there))
        | inr (_, old) ↦ v.capacity_fits i x old
      ];
      homed = λ w l x e m. elim (set-cases s.workers_info (map_to_worker q) w queue' l e) [
        | inl (home, l_is) ↦ elim (from x (subst (λ k. Memᴰ x k) (sym l_is) m)) [
          | inl is_q ↦
              let (y, y_there) =
                still x.queue_id info (ap (get_elem? s.queues_info) is_q ∙ there) in
              (ap map_to_worker is_q ∙ home, y, y_there)
          | inr old ↦
              let (at, y, y_there) = v.homed (map_to_worker q) queue x worker old in
              let (z, z_there) = still x.queue_id y y_there in (at ∙ home, z, z_there)
        ]
        | inr (_, old) ↦
            let (at, y, y_there) = v.homed w l x old m in
            let (z, z_there) = still x.queue_id y y_there in (at, z, z_there)
      ];
    }

  push-run :
      (map_to_worker : ℕ → ℕ) (s : QueueingLogic T) (q : ℕ) (item : T) (info : QueueInfo)
      (queue : List (QueueElement T))
      → get_elem? s.queues_info q ≡ some info
      → get_elem? s.workers_info (map_to_worker q) ≡ some queue
      → info.size < info.capacity
      → push_front map_to_worker s q item
        ≡ done (record {
          queues_info = set s.queues_info q (record info { size = (info.size + 1) % 2 ^ 64 });
          workers_info =
              set s.workers_info (map_to_worker q) (record { e = item; queue_id = q } ∷ queue);
        })
  unfolding push_front
  push-run map_to_worker s q item info queue there worker room =
      rw (there, push_front) (rw worker (rw (leb-false info.capacity info.size room) refl))

  -- Where a logical queue has room, push_front puts the element behind all others of its worker and
  -- keeps the sizes right.
  pub push_front-Inv :
      (map_to_worker : ℕ → ℕ) (s : QueueingLogic T) (q : ℕ) (item : T) (info : QueueInfo)
      (queue : List (QueueElement T))
      → Inv map_to_worker s
      → get_elem? s.queues_info q ≡ some info
      → get_elem? s.workers_info (map_to_worker q) ≡ some queue
      → info.size < info.capacity
      → (s' : QueueingLogic T) × (queue' : List (QueueElement T)) × (push_front map_to_worker s q
            item
          ≡ done s')
        × (get_elem? s'.workers_info (map_to_worker q) ≡ some queue')
        × (oldest_first queue' ≡ oldest_first queue ++ (record { e = item; queue_id = q } ∷ []))
        × Inv map_to_worker s'
  unfolding oldest_first tally
  push_front-Inv map_to_worker s q item info queue v there worker room =
      let bound = v.capacity_fits q info there in
      let counted = v.sized q info queue there worker in
      (
        _,
        record { e = item; queue_id = q } ∷ queue,
        push-run map_to_worker s q item info queue there worker room,
        get_elem?-set_self s.workers_info (map_to_worker q) _
            (get_elem?_lt s.workers_info (map_to_worker q) queue worker),
        refl,
        after-Inv map_to_worker s v q info (record info { size = (info.size + 1) % 2 ^ 64 }) queue
            (record { e = item; queue_id = q } ∷ queue) there worker refl (omega arith)
            (ground (arith, bound, counted, room)) (λ i other. ground (arith, other))
            (λ x m. elim (Memᴰ.cases_cons m) [
              | inl is ↦ inl (ap (λ (y : QueueElement T). y.queue_id) is)
              | inr old ↦ inr old
            ]),
      )

  pop-run :
      (s : QueueingLogic T) (w : ℕ) (x : QueueElement T) (xs : List (QueueElement T))
      (info : QueueInfo)
      → get_elem? s.workers_info w ≡ some (x ∷ xs)
      → get_elem? s.queues_info (split_back x xs).1.queue_id ≡ some info
      → pop_back s w
        ≡ done (
          (split_back x xs).1,
          record {
            queues_info =
                set s.queues_info
                  (split_back x xs).1.queue_id
                  (record info { size = (info.size + (2 ^ 64 - 1)) % 2 ^ 64 });
            workers_info = set s.workers_info w (split_back x xs).0;
          },
        )
  unfolding pop_back
  pop-run s w x xs info worker there = rw (worker, pop_back) (rw there refl)

  tally-back_self :
      (x : QueueElement T) (xs : List (QueueElement T))
      → tally (split_back x xs).1.queue_id (x ∷ xs)
        ≡ tally (split_back x xs).1.queue_id (split_back x xs).0 + 1
  unfolding tally
  tally-back_self x xs =
      let moved = tally-split_back (split_back x xs).1.queue_id x xs in
      moved ∙ rw (==_refl (split_back x xs).1.queue_id) refl

  tally-back_other :
      (i : ℕ) (x : QueueElement T) (xs : List (QueueElement T))
      → (split_back x xs).1.queue_id ≢ i
      → tally i (split_back x xs).0 ≡ tally i (x ∷ xs)
  unfolding tally
  tally-back_other i x xs other =
      let moved = tally-split_back i x xs in
      sym (moved ∙ rw (==_ne (split_back x xs).1.queue_id i other) refl)

  -- A worker whose queue is not empty takes its oldest element, the others stay in their order, no
  -- exception is thrown, and the sizes are right afterwards.
  pub pop_back-Inv :
      (map_to_worker : ℕ → ℕ) (s : QueueingLogic T) (w : ℕ) (x : QueueElement T)
      (xs : List (QueueElement T))
      → Inv map_to_worker s
      → get_elem? s.workers_info w ≡ some (x ∷ xs)
      → (oldest : QueueElement T) × (s' : QueueingLogic T) × (queue' : List (QueueElement T))
        × (pop_back s w ≡ done (oldest, s'))
        × (get_elem? s'.workers_info w ≡ some queue')
        × (oldest_first (x ∷ xs) ≡ oldest ∷ oldest_first queue')
        × Inv map_to_worker s'
  pop_back-Inv map_to_worker s w x xs v worker =
      let back = (split_back x xs).1 in
      let rest = (split_back x xs).0 in
      let (home, info, there) = v.homed w (x ∷ xs) back worker (back-Mem x xs) in
      let worker' : get_elem? s.workers_info (map_to_worker back.queue_id) ≡ some (x ∷ xs) =
        ap (get_elem? s.workers_info) home ∙ worker in
      let counted = v.sized back.queue_id info (x ∷ xs) there worker' ∙ tally-back_self x xs in
      let less =
        one_less info.size (tally back.queue_id rest) (v.fits back.queue_id info there) counted in
      let info' : QueueInfo = record info { size = (info.size + (2 ^ 64 - 1)) % 2 ^ 64 } in
      (
        back,
        record {
          queues_info = set s.queues_info back.queue_id info';
          workers_info = set s.workers_info (map_to_worker back.queue_id) rest;
        },
        rest,
        pop-run s w x xs info worker there
            ∙ ap
                (λ k. done (
                  back,
                  record {
                    queues_info = set s.queues_info back.queue_id info';
                    workers_info = set s.workers_info k rest;
                  },
                ))
                (sym home),
        ap (get_elem? (set s.workers_info (map_to_worker back.queue_id) rest)) (sym home)
            ∙ get_elem?-set_self s.workers_info (map_to_worker back.queue_id) rest
                (get_elem?_lt s.workers_info (map_to_worker back.queue_id) (x ∷ xs) worker'),
        oldest_first-split_back x xs,
        after-Inv map_to_worker s v back.queue_id info info' (x ∷ xs) rest there worker' refl
            (omega arith) less (λ i other. tally-back_other i x xs other)
            (λ y m. inr (rest-Mem x xs y m)),
      )
