-- ===== src/Insert/Parent/Distribute.antt =====
-- The loop of the split of a full inner node over leaves, for a key above all others.
use ccpbtree.Base.{
  ℕ, zero, suc, ◌+◌, ◌-◌, ◌/◌, ◌≤◌, ◌<◌, ◌≡◌, refl, sym, ap, ◌∙◌, true, false, arith, ltb, leb,
  ◌==◌, ◌&&◌,
}
use mathlib.Core.Path.{subst}
use native.Mathlib.Decide.{dec_lt}
use ccpbtree.Store.{Ptr, LeafNode, InnerNode, inner, Tree, Traits, ok}
use ccpbtree.Store.Points.{Points}
use ccpbtree.KeyOrder.{key_greater}
use ccpbtree.Insert.Parent.{InnerSplit, split_round, split_rounds}
use ccpbtree.Insert.Parent.Kids.{FullInner, dest, Kids, Kids-Step}
use ccpbtree.Insert.Parent.Put.{Half-more, put_entry-Placed, node'}
use ccpbtree.Insert.Parent.Halving.{
  Halving, round_state, not_new, other_node, round-low, round-high, cut_node, Half-cut,
  cut_middle-Step,
}

module _ {K V : Type 0} (p : Traits K V) {old : InnerNode K} {kids : ℕ → LeafNode K V} {base : Ptr}
    (f : FullInner p old kids base) (k : K)
    (above : (j : ℕ) → j < old.slots_in_use → key_greater p (old.key_slots j) k ≡ false)
    (start : Tree K V) (n n' : Ptr) where
  open p use {nodeslots, key_garbage}

  abbrev middle_at : ℕ
  middle_at = nodeslots / 2

  -- The round of the cut.
  round-cut :
      {t : Tree K V} (mid : K)
      → Halving p f k above start t (middle_at + 1) (middle_at + 1) (middle_at + 1) 0
      → (t' : Tree K V) × (split_round p base
            (base + 1)
            old
            k
            n
            n'
            (middle_at + 1)
            (round_state (middle_at + 1) 0 mid)
            t
          ≡ ok (round_state (middle_at + 1) (0 + 1) (old.key_slots middle_at), t'))
        × Halving p f k above start t' (middle_at + 1 + 1) middle_at (middle_at + 1) (0 + 1)
  unfolding split_round
  round-cut {t} mid h =
      let inside : middle_at + 1 < nodeslots = omega (arith, f.three) in
      let at : dest p f (middle_at + 1) ≡ base + 1 = ground arith in
      let sum : middle_at + 1 + 0 ≡ middle_at + 1 = omega arith in
      let (t1, run, v) = put_entry-Placed p f h.kids_moved inside at h.high_here h.high sum in
      let kids_1 : Kids p f start t1 (middle_at + 1 + 1) =
        Kids-Step p f h.kids_moved (omega arith) (omega arith) v.step (omega arith) (omega arith)
          (omega arith) in
      let low_1 : Points t1 base (inner h.low_node) =
        other_node p f k above start v.step (omega arith) (omega arith) (omega arith) h.low_here in
      let (t2, go, here, step) =
        cut_middle-Step p f k above start kids_1 low_1 h.low
          (round_state (middle_at + 1) (0 + 1) mid) in
      let first : (ltb (middle_at + 1) (old.slots_in_use / 2 + 1)
            && (middle_at + 1 == middle_at + 1))
          ≡ false =
        ground (arith, f.full) in
      let second : ltb (old.slots_in_use / 2) (middle_at + 1) ≡ true = ground (arith, f.full) in
      let cut : (middle_at + 1 == old.slots_in_use / 2 + 1) ≡ true = ground (arith, f.full) in
      let key : h.low_node.key_slots (middle_at + 1 - 1) ≡ old.key_slots middle_at =
        h.low.key_at (middle_at + 1 - 1) (omega arith) ∙ ap old.key_slots (omega arith) in
      (
        t2,
        rw (not_new p f k above start (middle_at + 1) inside, first, second, run, cut, go)
            (ap (λ (x : K). ok (round_state (middle_at + 1) (0 + 1) x, t2)) key),
        record {
          kids_moved =
              Kids-Step p f kids_1 (omega arith) (omega arith) step (omega arith) (omega arith)
                (omega arith);
          low_node = cut_node p f k above start kids_1 low_1 h.low;
          low_here = here;
          low = Half-cut p f k above start kids_1 low_1 h.low;
          high_node = node' p f h.kids_moved inside at h.high_here h.high sum;
          high_here =
              other_node p f k above start step (omega arith) (omega arith) (omega arith) v.here;
          high = Half-more p f h.kids_moved inside at h.high_here h.high sum;
        },
      )

  -- The loop has ended.
  pub record Ended (t : Tree K V) (s : InnerSplit K) : Type 0 where
    pub state_eq : s ≡ round_state nodeslots (nodeslots - (middle_at + 1)) (old.key_slots middle_at)
    pub halving :
        Halving p f k above start t nodeslots middle_at
          (middle_at + 1)
          (nodeslots - (middle_at + 1))

  abbrev pub Runs : ℕ → ℕ → InnerSplit K → Tree K V → Type 0
  Runs fuel i s t =
      (t' : Tree K V) × (s' : InnerSplit K) × (split_rounds p fuel base (base + 1) old k n n' i s t
        ≡ ok (s', t'))
      × Ended t' s'

  -- A round that goes on.
  rounds-next :
      (fuel i : ℕ) (s s' : InnerSplit K) (t t' : Tree K V)
      → s.i ≡ i
      → i < nodeslots
      → split_round p base (base + 1) old k n n' i s t ≡ ok (s', t')
      → Runs fuel (i + 1) (record s' { i = s'.i + 1 }) t'
      → Runs (suc fuel) i s t
  unfolding split_rounds
  rounds-next fuel i s s' t t' at inside run (t2, s2, go, ended) =
      let more : leb old.slots_in_use s.i ≡ false = ground (arith, f.full, inside, at) in
      (t2, s2, rw (split_rounds, more, run) go, ended)

  rounds-end :
      (fuel i : ℕ) (s : InnerSplit K) (t : Tree K V)
      → s.i ≡ nodeslots
      → Ended t s
      → Runs (suc fuel) i s t
  unfolding split_rounds
  rounds-end fuel i s t at ended =
      let done : leb old.slots_in_use s.i ≡ true = ground (arith, f.full, at) in
      (t, s, rw (split_rounds, done) refl, ended)

  rounds-high :
      (fuel i : ℕ) {t : Tree K V}
      → middle_at + 1 < i
      → i ≤ nodeslots
      → nodeslots < fuel + i
      → Halving p f k above start t i middle_at (middle_at + 1) (i - (middle_at + 1))
      → Runs fuel i (round_state i (i - (middle_at + 1)) (old.key_slots middle_at)) t
  rounds-high zero i behind le enough h = absurd (omega arith)
  rounds-high (suc fuel) i {t = t} behind le enough h = elim (dec_lt i nodeslots) [
    | yes inside ↦
        let (t', run, h') =
          round-high p f k above start n n' (old.key_slots middle_at) h behind inside in
        let e : i - (middle_at + 1) + 1 ≡ i + 1 - (middle_at + 1) = omega arith in
        rounds-next fuel i (round_state i (i - (middle_at + 1)) (old.key_slots middle_at))
          (round_state i (i - (middle_at + 1) + 1) (old.key_slots middle_at)) t t' refl inside run
          (subst (λ (x : ℕ). Runs fuel (i + 1) (round_state (i + 1) x (old.key_slots middle_at)) t')
            (sym e)
            (rounds-high fuel (i + 1) (omega arith) (omega arith) (omega arith) (
              subst (λ (x : ℕ). Halving p f k above start t' (i + 1) middle_at (middle_at + 1) x) e
                h')))
    | no last ↦
        let e : i ≡ nodeslots = omega arith in
        rounds-end fuel i (round_state i (i - (middle_at + 1)) (old.key_slots middle_at)) t e
          (record {
            state_eq =
                ap (λ (x : ℕ). round_state x (x - (middle_at + 1)) (old.key_slots middle_at)) e;
            halving =
                subst
                  (λ (x : ℕ).
                    Halving p f k above start t x middle_at (middle_at + 1) (x - (middle_at + 1)))
                  e h;
          })
  ]

  pub rounds-low :
      (fuel i : ℕ) {t : Tree K V} (mid : K)
      → i ≤ middle_at + 1
      → nodeslots < fuel + i
      → Halving p f k above start t i i i 0
      → Runs fuel i (round_state i 0 mid) t
  rounds-low zero i mid le enough h = absurd (omega (arith, f.three))
  rounds-low (suc fuel) i {t = t} mid le enough h = elim (dec_lt i (middle_at + 1)) [
    | yes before ↦
        let (t', run, h') = round-low p f k above start n n' mid h before in
        rounds-next fuel i (round_state i 0 mid) (round_state i 0 mid) t t' refl
          (omega (arith, f.three)) run (rounds-low fuel (i + 1) mid (omega arith) (omega arith) h')
    | no at_cut ↦
        let e : i ≡ middle_at + 1 = omega arith in
        subst (λ (x : ℕ). Runs (suc fuel) x (round_state x 0 mid) t) (sym e)
          (let (t', run, h') =
              round-cut mid (subst (λ (x : ℕ). Halving p f k above start t x x x 0) e h) in
            let one : 0 + 1 ≡ middle_at + 1 + 1 - (middle_at + 1) = omega arith in
            rounds-next fuel (middle_at + 1) (round_state (middle_at + 1) 0 mid)
              (round_state (middle_at + 1) (0 + 1) (old.key_slots middle_at)) t t' refl
              (omega (arith, f.three)) run
              (subst
                (λ (x : ℕ).
                  Runs fuel (middle_at + 1 + 1)
                    (round_state (middle_at + 1 + 1) x (old.key_slots middle_at)) t')
                (sym one)
                (rounds-high fuel (middle_at + 1 + 1) (omega arith) (omega (arith, f.three))
                  (omega (arith, e, enough))
                  (subst
                    (λ (x : ℕ).
                      Halving p f k above start t' (middle_at + 1 + 1) middle_at (middle_at + 1) x)
                    one h'))))
  ]
