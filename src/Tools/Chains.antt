-- ===== src/Tools/Chains.antt =====
-- Several updates of the strings of an item, joined by `||`: the first that fails ends them.
use libstatgrab.Base.{if◌then◌else◌, ◌≡◌, refl, ap, ◌∙◌, Option, false, ◌⊎◌, inl, inr}
use libstatgrab.Base.Bytes.{Bytes}
use libstatgrab.Error.{World, no_error, sg_get_error}
use libstatgrab.Error.Codes.{SgError, error_none}
use libstatgrab.Tools.Strings.Updates.{Updated}

-- One update, and the rest of the chain where it succeeded.
unfoldable pub and_then :
    {T : Type 0}
    → (Option Bytes → T)
    → SgError × Option Bytes × World
    → (T → World → SgError × T × World)
    → SgError × T × World
and_then set (rc, name, w) rest =
    if no_error rc then rest (set name) w else (sg_get_error w, set name, w)

-- A chain leaves `item`, or fails with an error that is set; nothing is written out of bounds.
abbrev pub Ends : {T : Type 0} → T → World → SgError × T × World → Type 0
Ends item w out =
    (out.2.fault ≡ w.fault)
    × (((out.0 ≡ error_none) × (out.1 ≡ item))
        ⊎ ((no_error out.0 ≡ false) × (sg_get_error out.2 ≡ out.0)))

-- A chain ends well if its first update does and the rest does from there.
pub and_then-Ends :
    {T : Type 0} (item : T) (set : Option Bytes → T) (before after : Option Bytes) (w : World)
    (out : SgError × Option Bytes × World) (rest : T → World → SgError × T × World)
    → Updated before after w out
    → ((w1 : World) → Ends item w1 (rest (set after) w1))
    → Ends item w (and_then set out rest)
unfolding and_then
and_then-Ends item set before after w (rc, name, w1) rest (fault, inl (bad, error, kept)) go =
    rw bad (fault, inr (ap no_error error, refl))
and_then-Ends item set before after w (rc, name, w1) rest (fault, inr (ok, is)) go =
    rw (ok, is) ((go w1).0 ∙ fault, (go w1).1)

-- How the chain goes on matters only from what the update leaves.
pub and_then-same :
    {T : Type 0} (set : Option Bytes → T) (before after : Option Bytes) (w : World)
    (out : SgError × Option Bytes × World) (rest rest' : T → World → SgError × T × World)
    → Updated before after w out
    → ((w1 : World) → rest (set after) w1 ≡ rest' (set after) w1)
    → and_then set out rest ≡ and_then set out rest'
unfolding and_then
and_then-same set before after w (rc, name, w1) rest rest' (fault, inl (bad, error, kept)) same =
    rw bad refl
and_then-same set before after w (rc, name, w1) rest rest' (fault, inr (ok, is)) same =
    rw (ok, is) (same w1)

-- An update that succeeded.
pub and_then-done :
    {T : Type 0} (set : Option Bytes → T) (after : Option Bytes) (w : World)
    (out : SgError × Option Bytes × World) (rest : T → World → SgError × T × World)
    → out ≡ (error_none, after, w)
    → and_then set out rest ≡ rest (set after) w
unfolding and_then
and_then-done set after w out rest e =
    ap (λ (o : SgError × Option Bytes × World). and_then set o rest) e
