-- ===== src/Find/Replace.antt =====
-- A search tree when one of its leaves has been written.
use ccpbtree.Base.{
  ℕ, zero, suc, ◌≤◌, ◌<◌, ◌≡◌, ◌≢◌, ◌⊎◌, inl, inr, true, none, some, Option, arith, put, lt→ltb,
  le→ltb, sym,
}
use mathlib.Core.Path.{subst}
use native.Mathlib.Decide.{dec_lt, ℕ_discrete}
use ccpbtree.Store.{Ptr, null, LeafNode, InnerNode, Node, leaf, inner, Tree, Traits}
use ccpbtree.Store.Points.{Points}
use ccpbtree.KeyOrder.{IsTotal, le_trans, lt_le_trans, asymmetric}
use ccpbtree.Find.Shape.{
  AtLeast, Below, Beyond, lower, upper, Successor, InnerShape, Subtree, leaf_at, inner_at,
}
use ccpbtree.Find.Descend.{leaf_unique}

-- `t'` is `t` with the leaf `l'` in place of the leaf `l` at `q`, as far as nodes go.
pub record Replaced {K V : Type 0} (t t' : Tree K V) (q : Ptr) (l l' : LeafNode K V) : Type 0 where
  pub here : Points t q (leaf l)
  pub heap_eq : t'.heap ≡ put t.heap q (some (leaf l'))

module _ {K V : Type 0} {t t' : Tree K V} {q : Ptr} {l l' : LeafNode K V}
    (c : Replaced t t' q l l') where
  pub new_here : Points t' q (leaf l')
  new_here = record { ne_null = c.here.ne_null; holds = rw c.heap_eq (ground arith) }

  pub Points-other : {r : Ptr} {n : Node K V} → Points t r n → r ≢ q → Points t' r n
  Points-other e different = record {
    ne_null = e.ne_null;
    holds = rw c.heap_eq (ground (arith, e.holds));
  }

  pub Points-inner : {r : Ptr} {n : InnerNode K} → Points t r (inner n) → Points t' r (inner n)
  Points-inner {r} {n} e = Points-other e (λ same. cc (e.holds, c.here.holds, same))

  pub Points-back : {r : Ptr} {n : Node K V} → Points t' r n → r ≢ q → Points t r n
  Points-back e different = record {
    ne_null = e.ne_null;
    holds = ground (arith, rw c.heap_eq at e.holds);
  }

  pub Points-inner_back : {r : Ptr} {n : InnerNode K} → Points t' r (inner n) → Points t r (inner n)
  Points-inner_back {r} {n} e = Points-back e (λ same. cc (e.holds, new_here.holds, same))

module _ {K V : Type 0} (p : Traits K V) where
  open p use {keyless}

  -- Both leaves have a key, and each key of the new one is `k` or a key of the old one.
  pub record Covered (k : K) (l l' : LeafNode K V) : Type 0 where
    pub used : 0 < l.slots_in_use
    pub used' : 0 < l'.slots_in_use
    pub among :
        (i : ℕ)
        → i < l'.slots_in_use
        → (l'.key_slots i ≡ k) ⊎ ((j : ℕ) × (j < l.slots_in_use) × (l'.key_slots i ≡ l.key_slots j))

  -- What holds of `k` and of the keys of the old leaf holds of those of the new one.
  pub Covered-all :
      {k : K} {l l' : LeafNode K V} (P : K → Type 0)
      → Covered k l l'
      → P k
      → ((j : ℕ) → j < l.slots_in_use → P (l.key_slots j))
      → (i : ℕ) → i < l'.slots_in_use
      → P (l'.key_slots i)
  Covered-all P v a b i inside = elim (v.among i inside) [
    | inl e ↦ subst P (sym e) a
    | inr (j, at, e) ↦ subst P (sym e) (b j at)
  ]

  -- `x` is less than the lower bound.
  abbrev pub Under : Option K → K → Type 0
  Under none x = ⊥
  Under (some b) x = keyless x b ≡ true

  -- A part of the tree with the key `x` of the written leaf on one side; on the right side of that
  -- part is also the key `k`.
  pub data Away (k x : K) : Option K → Option K → Type 0 where
    right : {lo hi : Option K} → Beyond p hi x → Beyond p hi k → Away k x lo hi
    left : {lo hi : Option K} → Under lo x → Below p hi x → Away k x lo hi

  module _ (o : IsTotal p) where
    Beyond-upper :
        (n : InnerNode K) (lo hi : Option K) (x : K) (i : ℕ)
        → InnerShape p n lo hi
        → Beyond p hi x
        → Beyond p (upper p n hi i) x
    Beyond-upper n lo none x i s h = absurd h
    Beyond-upper n lo (some b) x i s h = elim (dec_lt i n.slots_in_use) [
      | yes inside ↦
          rw (lt→ltb i n.slots_in_use inside)
            (le_trans o (n.key_slots i) b x (asymmetric o (n.key_slots i) b (s.below i inside)) h)
      | no outside ↦ rw (le→ltb i n.slots_in_use (omega arith)) h
    ]

    Under-key :
        (n : InnerNode K) (lo hi : Option K) (x : K) (i : ℕ)
        → InnerShape p n lo hi
        → Under lo x
        → i < n.slots_in_use
        → keyless x (n.key_slots i) ≡ true
    Under-key n none hi x i s h inside = absurd h
    Under-key n (some b) hi x i s h inside =
        lt_le_trans o x b (n.key_slots i) h (s.at_least i inside)

    Under-lower :
        (n : InnerNode K) (lo hi : Option K) (x : K) (i : ℕ)
        → InnerShape p n lo hi
        → Under lo x
        → i ≤ n.slots_in_use
        → Under (lower p n lo i) x
    Under-lower n lo hi x zero s h inside = h
    Under-lower n lo hi x (suc i) s h inside = Under-key n lo hi x i s h inside

    Below-upper :
        (n : InnerNode K) (hi : Option K) (x : K) (i : ℕ)
        → (i < n.slots_in_use → keyless x (n.key_slots i) ≡ true)
        → Below p hi x
        → Below p (upper p n hi i) x
    Below-upper n hi x i h b = elim (dec_lt i n.slots_in_use) [
      | yes inside ↦ rw (lt→ltb i n.slots_in_use inside) (h inside)
      | no outside ↦ rw (le→ltb i n.slots_in_use (omega arith)) b
    ]

    child-Away :
        (n : InnerNode K) (lo hi : Option K) (k x : K) (i : ℕ)
        → InnerShape p n lo hi
        → i ≤ n.slots_in_use
        → Away k x lo hi
        → Away k x (lower p n lo i) (upper p n hi i)
    child-Away n lo hi k x i s inside (right a b) =
        right (Beyond-upper n lo hi x i s a) (Beyond-upper n lo hi k i s b)
    child-Away n lo hi k x i s inside (left a b) =
        left (Under-lower n lo hi x i s a inside)
          (Below-upper n hi x i (Under-key n lo hi x i s a) b)

    AtLeast-not : (lo : Option K) (x : K) → AtLeast p lo x → Under lo x → ⊥
    AtLeast-not none x a b = b
    AtLeast-not (some c) x a b = cc (a, b)

    pub Below-not : (hi : Option K) (x : K) → Below p hi x → Beyond p hi x → ⊥
    Below-not none x a b = b
    Below-not (some c) x a b = cc (a, b)

    module _ {t t' : Tree K V} {k : K} {q : Ptr} {l l' : LeafNode K V} (c : Replaced t t' q l l')
        (v : Covered k l l') where
      -- A successor stays one, if it is another leaf or the key is beyond the bound.
      Successor-Replaced :
          (r : Ptr) (hi : Option K)
          → (r ≡ q → Beyond p hi k)
          → Successor p t r hi
          → Successor p t' r hi
      Successor-Replaced r hi far s = elim (ℕ_discrete r q) [
        | yes same ↦
            let m-eq : s.node ≡ l =
              leaf_unique p (subst (λ (x : Ptr). Points t x (leaf s.node)) same s.here) c.here in
            record {
              node = l';
              here = subst (λ (x : Ptr). Points t' x (leaf l')) (sym same) (new_here c);
              in_use_pos = v.used';
              beyond = Covered-all (Beyond p hi) v (far same) (
                  subst
                    (λ (m : LeafNode K V).
                      (j : ℕ) → j < m.slots_in_use → Beyond p hi (m.key_slots j))
                    m-eq s.beyond);
            }
        | no different ↦ record {
          node = s.node;
          here = Points-other c s.here different;
          in_use_pos = s.in_use_pos;
          beyond = s.beyond;
        }
      ]

      -- The first key of the leaf at `q` as a key of a successor there.
      pub first-Beyond :
          (r : Ptr) (hi : Option K) → r ≡ q → Successor p t r hi → Beyond p hi (l.key_slots 0)
      first-Beyond r hi same s =
          subst (λ (m : LeafNode K V). (j : ℕ) → j < m.slots_in_use → Beyond p hi (m.key_slots j))
            (leaf_unique p (subst (λ (x : Ptr). Points t x (leaf s.node)) same s.here) c.here)
            s.beyond 0 v.used

      abbrev pub x : K
      x = l.key_slots 0

      Away-not : {lo hi : Option K} → AtLeast p lo x → Below p hi x → Away k x lo hi → ⊥
      Away-not {lo} {hi} a b (right c d) = Below-not hi x b c
      Away-not {lo} {hi} a b (left c d) = AtLeast-not lo x a c

      Away-far :
          {lo hi : Option K} (r : Ptr) → Away k x lo hi → Successor p t r hi → r ≡ q → Beyond p hi k
      Away-far r (right a b) s same = b
      Away-far {lo} {hi} r (left a b) s same = absurd (Below-not hi x b (first-Beyond r hi same s))

      pub next-Replaced :
          (m : LeafNode K V) {hi : Option K}
          → (Successor p t m.next_leaf hi → m.next_leaf ≡ q → Beyond p hi k)
          → (m.next_leaf ≡ null) ⊎ Successor p t m.next_leaf hi
          → (m.next_leaf ≡ null) ⊎ Successor p t' m.next_leaf hi
      next-Replaced m far (inl absent) = inl absent
      next-Replaced m {hi} far (inr s) = inr (Successor-Replaced m.next_leaf hi (far s) s)

      -- The parts of the tree that are away from the leaf are as before.
      pub frame :
          {h : ℕ} {r : Ptr} {lo hi : Option K}
          → Subtree p t h r lo hi
          → Away k x lo hi
          → Subtree p t' h r lo hi
      frame {lo = lo} {hi = hi} (leaf_at {q = r} m e s) w =
          leaf_at m
            (Points-other c e (λ same.
              let eq : m ≡ l =
                leaf_unique p (subst (λ (y : Ptr). Points t y (leaf m)) same e) c.here in
              Away-not
                (subst
                  (λ (y : LeafNode K V).
                    (i : ℕ) → i < y.slots_in_use → AtLeast p lo (y.key_slots i))
                  eq s.at_least 0 v.used)
                (subst
                  (λ (y : LeafNode K V). (i : ℕ) → i < y.slots_in_use → Below p hi (y.key_slots i))
                  eq s.below 0 v.used)
                w))
            (record {
              in_use_le = s.in_use_le;
              sorted = s.sorted;
              at_least = s.at_least;
              below = s.below;
              next = next-Replaced m (Away-far m.next_leaf w) s.next;
            })
      frame {lo = lo} {hi = hi} (inner_at n e s sub) w =
          inner_at n (Points-inner c e) s
            (λ i inside. frame (sub i inside) (child-Away n lo hi k x i s inside w))
