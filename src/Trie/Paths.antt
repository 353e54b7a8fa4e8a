-- ===== src/Trie/Paths.antt =====
-- Prefixes as paths: a stored value stands at the end of a path, two paths to one node are the same,
-- and the bits of a prefix are its path and its key.
use mathlib.Core.List.{reverse_aux}
use behavioral_model.Base.{
  ℕ, zero, suc, ◌+◌, ◌-◌, ◌*◌, ◌/◌, ◌^◌, ◌<◌, ◌≡◌, refl, inl, inr, Option, some, List, [], ◌∷◌, leb,
  ◌>>=◌, arith, Bool-cases, Option-cases,
}
use behavioral_model.Judy.{JudyL}
use behavioral_model.Trie.{Ptr, Node, Heap, tail_key, get_prefix_key}
use behavioral_model.Trie.Shape.{Labels, Inv, stored_at, path_of, key_of}

pub tail_key-zero : (rest : List ℕ) → tail_key rest 0 ≡ some 0
unfolding tail_key
tail_key-zero rest = refl

-- Fewer than eight bits of a byte are below 128.
pub shift_bound : (x len : ℕ) → x < 256 → len < 8 → x / 2 ^ (8 - len) < 128
shift_bound x zero b small = omega arith
shift_bound x (suc zero) b small = omega arith
shift_bound x (suc (suc zero)) b small = omega arith
shift_bound x (suc (suc (suc zero))) b small = omega arith
shift_bound x (suc (suc (suc (suc zero)))) b small = omega arith
shift_bound x (suc (suc (suc (suc (suc zero))))) b small = omega arith
shift_bound x (suc (suc (suc (suc (suc (suc zero)))))) b small = omega arith
shift_bound x (suc (suc (suc (suc (suc (suc (suc len))))))) b small =
    let e : len ≡ 0 = omega arith in rw e (omega arith)

pub tail_key-byte :
    (byte : ℕ) (rest : List ℕ) (len : ℕ)
    → byte < 256
    → len < 8
    → tail_key (byte ∷ rest) len ≡ some (byte / 2 ^ (8 - len) + len * 256)
unfolding tail_key get_prefix_key
tail_key-byte byte rest zero b small = ground arith
tail_key-byte byte rest (suc len) b small = ground (arith, shift_bound byte (suc len))

pub key_inj :
    (x y len len' : ℕ)
    → x < 256
    → y < 256
    → len < 8
    → len' < 8
    → x / 2 ^ (8 - len) + len * 256 ≡ y / 2 ^ (8 - len') + len' * 256
    → (len ≡ len') × (x / 2 ^ (8 - len) ≡ y / 2 ^ (8 - len'))
key_inj x y len len' bx by' small small' e =
    omega (arith, shift_bound x len bx small, shift_bound y len' by' small')

module _ {A : Type 0} (j : JudyL A) where
  open j use {get}

  abbrev pub follow : List ℕ → Ptr → Heap A → Option Ptr
  follow [] p h = some p
  follow (byte ∷ path) p h = h.cell p >>= (λ n. get n.branches byte >>= (λ q. follow path q h))

  pub stored_at-follow :
      (prefix : List ℕ) (len : ℕ) (p : Ptr) (h : Heap A)
      → stored_at j prefix len p h ≡ (
          follow (path_of prefix len) p h
          >>= (λ q. h.cell q >>= (λ n. key_of prefix len >>= get n.prefixes)))
  stored_at-follow [] len p h = elim (Bool-cases (leb 8 len)) [
    | inl more ↦ rw more
    | inr done ↦ rw done
  ]
  stored_at-follow (byte ∷ rest) len p h = elim (Bool-cases (leb 8 len)) [
    | inl more ↦ elim (Option-cases (h.cell p)) [
      | inl gone ↦ rw (more, gone)
      | inr (n, here) ↦ elim (Option-cases (get n.branches byte)) [
        | inl bare ↦ rw (more, here, bare)
        | inr (q, found) ↦ rw (more, here, found, stored_at-follow rest (len - 8) q h)
      ]
    ]
    | inr done ↦ rw done
  ]

  module _ {h : Heap A} {label : Labels} (v : Inv j h label) where
    pub follow-label :
        (path : List ℕ) (p : Ptr) (n : Node A) (q : Ptr)
        → h.cell p ≡ some n
        → follow path p h ≡ some q
        → label q ≡ reverse_aux path (label p)
    follow-label [] p n q here e = ground arith
    follow-label (byte ∷ path) p n q here e = elim (Option-cases (get n.branches byte)) [
      | inl bare ↦ absurd (ground arith)
      | inr (c, found) ↦
          let below = v.child p n byte c here found in
          rw (← below.labelled) (follow-label path c below.node q below.holds (ground arith))
    ]
