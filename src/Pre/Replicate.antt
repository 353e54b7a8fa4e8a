-- ===== src/Pre/Replicate.antt =====
-- What replicate gives for a group, and what it does with a node that is gone.
use behavioral_model.Base.{
  ℕ, zero, suc, ◌+◌, ◌≡◌, ◌↔◌, refl, sym, ap, ◌∙◌, inl, inr, Bool, true, false, Option, none, some,
  List, [], ◌∷◌, ◌++◌, arith, get_elem?,
}
use mathlib.Core.List.{Memᴰ}
use mathlib.Core.List.Memᴰ
use behavioral_model.Pre.{McOut, L1Entry, L2Entry, port_copies, node_copies}
use behavioral_model.Pre.Maps.{find}

-- A copy for a port of the list that is set, the first of them being `start`.
abbrev IsPort : ℕ → ℕ → List Bool → McOut → Type 0
IsPort rid start ports o =
    (i : ℕ) × (get_elem? ports i ≡ some true) × (o ≡ record { rid = rid; egress_port = start + i })

port_copies_sound :
    (rid start : ℕ) (ports : List Bool) (o : McOut)
    → Memᴰ o (port_copies rid start ports)
    → IsPort rid start ports o
unfolding port_copies
port_copies_sound rid start [] o m = absurd (Memᴰ.not-nil m)
port_copies_sound rid start (false ∷ ports) o m =
    let (i, on, e) = port_copies_sound rid (start + 1) ports o m in
    (suc i, on, e ∙ ap (λ k. record { rid = rid; egress_port = k }) (omega arith))
port_copies_sound rid start (true ∷ ports) o m = elim (Memᴰ.cases_cons m) [
  | inl e ↦ (0, refl, e ∙ ap (λ k. record { rid = rid; egress_port = k }) (omega arith))
  | inr m' ↦
      let (i, on, e) = port_copies_sound rid (start + 1) ports o m' in
      (suc i, on, e ∙ ap (λ k. record { rid = rid; egress_port = k }) (omega arith))
]

port_copies_complete :
    (rid start : ℕ) (ports : List Bool) (i : ℕ)
    → get_elem? ports i ≡ some true
    → Memᴰ (record { rid = rid; egress_port = start + i }) (port_copies rid start ports)
unfolding port_copies
port_copies_complete rid start [] i e = absurd (cc e)
port_copies_complete rid start (true ∷ ports) zero e =
    Memᴰ.head (ap (λ k. record { rid = rid; egress_port = k }) (omega arith))
port_copies_complete rid start (false ∷ ports) zero e = absurd (cc e)
port_copies_complete rid start (true ∷ ports) (suc i) e = Memᴰ.tail (
    Memᴰ.cast (ap (λ k. record { rid = rid; egress_port = k }) (omega arith))
      (port_copies_complete rid (start + 1) ports i e))
port_copies_complete rid start (false ∷ ports) (suc i) e =
    Memᴰ.cast (ap (λ k. record { rid = rid; egress_port = k }) (omega arith))
      (port_copies_complete rid (start + 1) ports i e)

module _ (l1_entries : List (ℕ × L1Entry)) (l2_entries : List (ℕ × L2Entry)) where
  -- The handle names a node.
  pub record Placed (h : ℕ) : Type 0 where
    pub node : L1Entry
    pub below : L2Entry
    pub node_there : find l1_entries h ≡ some node
    pub below_there : find l2_entries node.l2_hdl ≡ some below

  -- A copy that a node of the list asks for: its replication id, and a port that is set.
  pub record IsCopy (l1_list : List ℕ) (o : McOut) : Type 0 where
    pub handle : ℕ
    pub listed : Memᴰ handle l1_list
    pub at : Placed handle
    pub same_rid : o.rid ≡ at.node.rid
    pub port_set : get_elem? at.below.port_map o.egress_port ≡ some true

  unfoldable pub Copies : List ℕ → Option (List McOut) → Type 0
  Copies l1_list result =
      (copies : List McOut) × (result ≡ some copies)
      × ((o : McOut) → Memᴰ o copies ↔ IsCopy l1_list o)

  IsCopy-tail : (h : ℕ) (hs : List ℕ) (o : McOut) → IsCopy hs o → IsCopy (h ∷ hs) o
  IsCopy-tail h hs o c = record {
    handle = c.handle;
    listed = Memᴰ.tail c.listed;
    at = c.at;
    same_rid = c.same_rid;
    port_set = c.port_set;
  }

  IsCopy-head :
      (h : ℕ) (hs : List ℕ) (o : McOut) (p : Placed h)
      → IsPort p.node.rid 0 p.below.port_map o
      → IsCopy (h ∷ hs) o
  IsCopy-head h hs o p (i, on, e) = record {
    handle = h;
    listed = Memᴰ.head refl;
    at = p;
    same_rid = ap (λ (x : McOut). x.rid) e;
    port_set =
        let same : o.egress_port ≡ i = ap (λ (x : McOut). x.egress_port) e ∙ omega arith in
        ap (get_elem? p.below.port_map) same ∙ on;
  }

  -- The copies that the first node asks for.
  head-copies :
      (h k : ℕ) (o : McOut) (p : Placed h) (q : Placed k)
      → k ≡ h
      → o.rid ≡ q.node.rid
      → get_elem? q.below.port_map o.egress_port ≡ some true
      → Memᴰ o (port_copies p.node.rid 0 p.below.port_map)
  head-copies h k o p q same rid on =
      let same_node : q.node ≡ p.node = cc (same, q.node_there, p.node_there) in
      let same_below : q.below ≡ p.below = cc (same_node, q.below_there, p.below_there) in
      let on' : get_elem? p.below.port_map o.egress_port ≡ some true =
        ap (λ (x : L2Entry). get_elem? x.port_map o.egress_port) (sym same_below) ∙ on in
      let rid' : o.rid ≡ p.node.rid = rid ∙ ap (λ (x : L1Entry). x.rid) same_node in
      Memᴰ.cast (is_record o p.node.rid rid')
        (port_copies_complete p.node.rid 0 p.below.port_map o.egress_port on')
    where
      is_record :
          (o : McOut) (rid : ℕ)
          → o.rid ≡ rid
          → o ≡ record { rid = rid; egress_port = 0 + o.egress_port }
      is_record o rid e =
          ap (λ k. record { rid = k; egress_port = o.egress_port }) e
          ∙ ap (λ k. record { rid = rid; egress_port = k }) (omega arith)

  pub node_copies-Copies :
      (l1_list : List ℕ)
      → ((h : ℕ) → Memᴰ h l1_list → Placed h)
      → Copies l1_list (node_copies l1_entries l2_entries l1_list)
  unfolding node_copies Copies
  node_copies-Copies [] placed =
      ([], refl, λ o. ((λ m. absurd (Memᴰ.not-nil m)), (λ c. absurd (Memᴰ.not-nil c.listed))))
  node_copies-Copies (h ∷ hs) placed =
      let p = placed h (Memᴰ.head refl) in
      let (copies, run, are) = node_copies-Copies hs (λ k m. placed k (Memᴰ.tail m)) in
      (
        port_copies p.node.rid 0 p.below.port_map ++ copies,
        rw (p.node_there, node_copies) (rw p.below_there (rw run refl)),
        λ o. (
          (λ m. elim (Memᴰ.append_cases (port_copies p.node.rid 0 p.below.port_map) m) [
            | inl here ↦
                IsCopy-head h hs o p (port_copies_sound p.node.rid 0 p.below.port_map o here)
            | inr there ↦ IsCopy-tail h hs o ((are o).0 there)
          ]),
          (λ c. elim (Memᴰ.cases_cons c.listed) [
            | inl same ↦
                Memᴰ.append_left copies (head-copies h c.handle o p c.at same c.same_rid c.port_set)
            | inr listed ↦ Memᴰ.append_right (port_copies p.node.rid 0 p.below.port_map) (
                (are o).1 (record {
                  handle = c.handle;
                  listed = listed;
                  at = c.at;
                  same_rid = c.same_rid;
                  port_set = c.port_set;
                }))
          ]),
        ),
      )

  -- A node of the list that is gone.
  pub node_copies-gone :
      (h : ℕ) (l1_list : List ℕ)
      → find l1_entries h ≡ none
      → Memᴰ h l1_list
      → node_copies l1_entries l2_entries l1_list ≡ none
  unfolding node_copies
  node_copies-gone h [] gone m = absurd (Memᴰ.not-nil m)
  node_copies-gone h (k ∷ l1_list) gone m = elim (Memᴰ.cases_cons m) [
    | inl same ↦
        let gone' : find l1_entries k ≡ none = ap (find l1_entries) (sym same) ∙ gone in
        rw (gone', node_copies) refl
    | inr m' ↦ let rest = node_copies-gone h l1_list gone m' in ground (arith, rest)
  ]
