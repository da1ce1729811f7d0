-- ===== src/Globals/Storage.antt =====
-- The parts of a thread's storage do not overlap.
use libstatgrab.Base.{ℕ, zero, suc, ◌+◌, ◌≤◌, ◌<◌, ◌≡◌, arith, List, [], ◌∷◌, some, get_elem?}
use libstatgrab.Globals.{CompInit, layout}

layout_grows : (comps : List CompInit) (size : ℕ) → size ≤ (layout comps size).1
unfolding layout
layout_grows [] size = omega arith
layout_grows (c ∷ comps) size = omega (arith, layout_grows comps (size + c.static_buf_size))

layout_from :
    (comps : List CompInit) (size i o : ℕ) (c : CompInit)
    → get_elem? comps i ≡ some c
    → get_elem? (layout comps size).0 i ≡ some o
    → (size ≤ o) × (o + c.static_buf_size ≤ (layout comps size).1)
unfolding layout
layout_from [] size i o c hc ho = cc
layout_from (d ∷ comps) size zero o c hc ho =
    ground (arith, layout_grows comps (size + d.static_buf_size))
layout_from (d ∷ comps) size (suc i) o c hc ho =
    let (low, high) = layout_from comps (size + d.static_buf_size) i o c hc ho in
    (omega arith, high)

-- The layout of a thread's storage, for two components of which the first comes earlier: its part
-- ends before that of the second begins, and that of the second ends within the whole.
pub layout_disjoint :
    (comps : List CompInit) (size i j o p : ℕ) (c d : CompInit)
    → i < j
    → get_elem? comps i ≡ some c
    → get_elem? comps j ≡ some d
    → get_elem? (layout comps size).0 i ≡ some o
    → get_elem? (layout comps size).0 j ≡ some p
    → (o + c.static_buf_size ≤ p) × (p + d.static_buf_size ≤ (layout comps size).1)
unfolding layout
layout_disjoint [] size i j o p c d lt hc hd ho hp = cc
layout_disjoint (e ∷ comps) size i zero o p c d lt hc hd ho hp = absurd (omega arith)
layout_disjoint (e ∷ comps) size zero (suc j) o p c d lt hc hd ho hp =
    let (low, high) = layout_from comps (size + e.static_buf_size) j p d hd hp in
    (ground arith, high)
layout_disjoint (e ∷ comps) size (suc i) (suc j) o p c d lt hc hd ho hp =
    layout_disjoint comps (size + e.static_buf_size) i j o p c d (omega arith) hc hd ho hp
