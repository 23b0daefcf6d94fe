-- ===== src/Store/Points.antt =====
-- What an address holds, and what a read of it gives.
use ccpbtree.Base.{◌≤◌, ◌<◌, none, ◌≡◌, ◌≢◌, some, arith}
use ccpbtree.Store.{
  Ptr, null, LeafNode, InnerNode, Node, leaf, inner, Tree, ok, load, load_leaf, load_inner,
}

module _ {K V : Type 0} where
  -- The address `q` holds the node `n`.
  pub record Points (t : Tree K V) (q : Ptr) (n : Node K V) : Type 0 where
    pub ne_null : q ≢ null
    pub holds : t.heap q ≡ some n

  -- What was freed stays freed, and the head of the list of leaves stays where it was.
  pub record Keeps (t t' : Tree K V) : Type 0 where
    pub head_same : t'.head_leaf ≡ t.head_leaf
    pub brk_le : t.brk ≤ t'.brk
    pub gone : (q : Ptr) → q < t.brk → t.heap q ≡ none → t'.heap q ≡ none

  pub load-ok : {t : Tree K V} {q : Ptr} {n : Node K V} → Points t q n → load q t ≡ ok (n, t)
  unfolding load
  load-ok {t} {q} e = rw e.holds (ground (arith, e.ne_null))

  pub load_leaf-ok :
      {t : Tree K V} {q : Ptr} {l : LeafNode K V} → Points t q (leaf l) → load_leaf q t ≡ ok (l, t)
  unfolding load_leaf
  load_leaf-ok e = rw (load-ok e)

  pub load_inner-ok :
      {t : Tree K V} {q : Ptr} {n : InnerNode K} → Points t q (inner n) → load_inner q t ≡ ok (n, t)
  unfolding load_inner
  load_inner-ok e = rw (load-ok e)
