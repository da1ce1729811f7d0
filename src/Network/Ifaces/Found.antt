-- ===== src/Network/Ifaces/Found.antt =====
-- The interfaces that `sg_get_network_iface_stats_int` finds.
use libstatgrab.Base.{
  ℕ, zero, suc, ◌%◌, ◌∙◌, arith, true, false, ◌&&◌, ◌||◌, leb, ◌≡◌, refl, subst, sym, Bool, List,
  [], ◌∷◌, Option, none, some, inl, inr, Bool-cases, Option-cases, length, ◌==◌, take,
  if◌then◌else◌,
}
use libstatgrab.Base.Bytes.{Bytes, codes}
use libstatgrab.Error.{World}
use libstatgrab.Error.Codes.{error_open}
use libstatgrab.Stdio.{Stream, refused, opened, after_reads, lines_of, skip_space}
use libstatgrab.Network.Reader.{until_colon}
use libstatgrab.Stdio.Failures.{Failed, set_with_errno-Failed, after_reads_lem}
use libstatgrab.Tools.Chains.{Ends, and_then-Ends}
use libstatgrab.Tools.Strings.Updates.{update_string_lem}
use libstatgrab.Vector.{SgVector, live}
use libstatgrab.Vector.Grow.{IsValid}
use libstatgrab.Vector.Append.{append_loop}
use libstatgrab.Vector.Append.Growth.{Room, Makes, all_made}
use libstatgrab.Vector.Append.Listing.{Listing, append_loop-Listing, Listing-ended}
use libstatgrab.Network.Ifaces.{
  IfaceStats, EthtoolCmd, IfaceDuplex, IfaceUpdown, duplex_full, duplex_half, duplex_unknown,
  iface_down, iface_up, sg_network_iface_stats_item_init, network_iface_info, max_ifr_name,
  duplex_of, speed_switch, run_cases, enter_switch, known_speeds, iface_name, iface_speed, up_of,
  iface_fill, iface_line, iface_lines, iface_socket, iface_buf_size, sg_get_network_iface_stats_int,
}

run_cases_lem : (cases : List ℕ) (stored : ℕ) → run_cases cases stored ≡ 0
unfolding run_cases
run_cases_lem [] stored = refl
run_cases_lem (c ∷ cases) stored = run_cases_lem cases c

enter_switch_lem : (cases : List ℕ) (speed stored : ℕ) → enter_switch cases speed stored ≡ 0
unfolding enter_switch run_cases
enter_switch_lem [] speed stored = refl
enter_switch_lem (c ∷ cases) speed stored = elim (Bool-cases (c == speed)) [
  | inl e ↦ rw e (run_cases_lem cases c)
  | inr e ↦ rw e (enter_switch_lem cases speed stored)
]

-- IFF_UP is the lowest bit of the flags.
abbrev pub up_told : ℕ → IfaceUpdown
up_told f = if f % 2 == 0 then iface_down else iface_up

-- DUPLEX_HALF is 0 and DUPLEX_FULL is 1.
abbrev pub duplex_told : ℕ → IfaceDuplex
duplex_told zero = duplex_half
duplex_told (suc zero) = duplex_full
duplex_told (suc (suc n)) = duplex_unknown

-- The text before the first colon of a line.
abbrev with_first : ℕ → Option Bytes → Option Bytes
with_first c none = none
with_first c (some s) = some (c ∷ s)

abbrev before_colon : Bytes → Option Bytes
before_colon [] = none
before_colon (c ∷ s) = if c == 58 then some [] else with_first c (before_colon s)

abbrev less_space : Bytes → Bytes
less_space [] = []
less_space (c ∷ s) =
    let rest = less_space s in if (leb 9 c && leb c 13) || (c == 32) then rest else c ∷ s

abbrev less_space_of : Option Bytes → Option Bytes
less_space_of none = none
less_space_of (some s) = some (less_space s)

-- The name in a line: what stands before its first colon, less the white space in front.
abbrev pub name_told : Bytes → Option Bytes
name_told line = less_space_of (before_colon line)

up_of_lem : (f : ℕ) → up_of f ≡ up_told f
up_of_lem f = elim (Bool-cases (f % 2 == 0)) [
  | inl e ↦ let n : (f % 2 == 1) ≡ false = ground arith in rw (e, n) refl
  | inr e ↦ let n : (f % 2 == 1) ≡ true = ground arith in rw (e, n) refl
]

duplex_of_lem : (n : ℕ) → duplex_of n ≡ duplex_told n
duplex_of_lem zero = refl
duplex_of_lem (suc zero) = refl
duplex_of_lem (suc (suc n)) =
    let one : (suc (suc n) == 1) ≡ false = ground arith in
    let none_there : (suc (suc n) == 0) ≡ false = ground arith in rw (one, none_there) refl

skip_space_lem : (s : Bytes) → skip_space s ≡ less_space s
unfolding skip_space
skip_space_lem [] = refl
skip_space_lem (c ∷ s) = ground (arith, skip_space_lem s)

until_colon-none : (s : Bytes) → until_colon s ≡ none → before_colon s ≡ none
unfolding until_colon
until_colon-none [] e = refl
until_colon-none (c ∷ s) e = ground (arith, e, until_colon-none s)

until_colon-some :
    (s name rest : Bytes) → until_colon s ≡ some (name, rest) → before_colon s ≡ some name
unfolding until_colon
until_colon-some [] name rest e = cc
until_colon-some (c ∷ s) name rest e = elim (Bool-cases (c == 58)) [
  | inl h ↦ let is : some ([], s) ≡ some (name, rest) = rw h at e in rw h (ground (arith, is))
  | inr h ↦ rw h (elim (Option-cases (until_colon s)) [
    | inl k ↦ absurd (cc)
    | inr ((n, r), k) ↦ rw (until_colon-some s n r k) (ground (arith, e, h, k))
  ])
]

iface_name_lem : (line : Bytes) → iface_name line ≡ name_told line
unfolding iface_name
iface_name_lem line = elim (Option-cases (until_colon line)) [
  | inl e ↦ rw (e, until_colon-none line e, iface_name) refl
  | inr ((name, rest), e) ↦
      rw (e, until_colon-some line name rest e, skip_space_lem name, iface_name) refl
]

module _ (speed_hi : Bool) (flags : Bytes → Option ℕ) (ethtool : Bytes → Option EthtoolCmd)
    (now : ℕ) where
  -- The interface with a name and flags, as the kernel tells of it.
  abbrev pub iface_told : Option EthtoolCmd → Bytes → ℕ → IfaceStats
  iface_told none name f = record {
    interface_name = some name;
    speed = 0;
    factor = 0;
    duplex = duplex_unknown;
    up = up_told f;
    systime = now;
  }
  iface_told (some e) name f = record {
    interface_name = some name;
    speed = if speed_hi then e.whole_speed else 0;
    factor = 1000000;
    duplex = duplex_told e.duplex;
    up = up_told f;
    systime = now;
  }

  abbrev pub iface_asked : Bytes → Option ℕ → Option IfaceStats
  iface_asked name none = none
  iface_asked name (some f) = some (iface_told (ethtool (take 16 name)) name f)

  abbrev pub named_made : Option Bytes → Option IfaceStats
  named_made none = none
  named_made (some name) = iface_asked name (flags (take 16 name))

  abbrev pub iface_made : Bytes → Option IfaceStats
  iface_made line = named_made (name_told line)

  iface_speed_lem :
      (o : Option EthtoolCmd) (name : Bytes) (f : ℕ) (d : IfaceStats)
      → iface_speed speed_hi flags ethtool now o
          (record d { interface_name = some name; up = up_of f })
        ≡ iface_told o name f
  unfolding iface_speed speed_switch
  iface_speed_lem none name f d = rw (up_of_lem f) refl
  iface_speed_lem (some e) name f d =
      rw (enter_switch_lem known_speeds e.speed d.speed, up_of_lem f, duplex_of_lem e.duplex) refl

  iface_fill-Ends :
      (name : Bytes) (f : ℕ) (d : IfaceStats) (w : World)
      → Ends
          (iface_told (ethtool (take max_ifr_name name)) name f)
          w
          (iface_fill speed_hi flags ethtool now name f d w)
  unfolding iface_fill
  iface_fill-Ends name f d w =
      and_then-Ends _ _ d.interface_name (some name) w _ _
        (update_string_lem d.interface_name name w)
        (λ w1. (refl, inl (refl, iface_speed_lem (ethtool (take max_ifr_name name)) name f d)))

  line-Makes :
      (raw : IfaceStats) (line : Bytes)
      → Makes
          (network_iface_info raw)
          sg_network_iface_stats_item_init
          refl
          (iface_line speed_hi flags ethtool now)
          (λ a b. a ≡ b)
          iface_made
          line
  unfolding iface_line
  line-Makes raw line = elim (Option-cases (iface_name line)) [
    | inl e ↦ rw (e, iface_line, sym (iface_name_lem line) ∙ e) (inl (refl, refl))
    | inr (name, e) ↦
        rw (e, iface_line, sym (iface_name_lem line) ∙ e)
          (elim (Option-cases (flags (take max_ifr_name name))) [
            | inl g ↦ rw g (inl (refl, refl))
            | inr (f, g) ↦ rw g (
                inr (
                  iface_fill speed_hi flags ethtool now name f,
                  iface_told (ethtool (take max_ifr_name name)) name f,
                  refl,
                  refl,
                  λ d w. iface_fill-Ends name f (sg_network_iface_stats_item_init d) w,
                ))
          ])
  ]

  found_lem :
      (raw : IfaceStats) (f : Stream) (a b : Bytes) (lines : List Bytes) (v : SgVector IfaceStats)
      (w : World)
      → IsValid v
      → v.info ≡ network_iface_info raw
      → v.used_count ≡ 0
      → Room v.block_shift (length lines) 40
      → Listing
          (λ a b. a ≡ b)
          (all_made iface_made lines)
          w
          (iface_lines speed_hi flags ethtool now raw f (a ∷ b ∷ lines) v w)
  unfolding iface_lines
  found_lem raw f a b lines v w valid same unused room =
      let info = network_iface_info raw in
      let out = append_loop info (iface_line speed_hi flags ethtool now) lines 0 (live v) w in
      let read =
        append_loop-Listing info sg_network_iface_stats_item_init refl
          (iface_line speed_hi flags ethtool now) (λ a b. a ≡ b) iface_made lines v w
          (line-Makes raw) valid same unused room in
      Listing-ended (λ a b. a ≡ b) (all_made iface_made lines) w (after_reads f out.world) out.rc
        out.vector out.world (after_reads_lem f out.world).0 (after_reads_lem f out.world).1 read

  -- `sg_get_network_iface_stats_int` on a valid vector with no item in use, with the two lines of title in
  -- /proc/net/dev, a socket, and room for all lines: every later line that has a colon, and for whose
  -- name, the text before it less its white space in front, the kernel has flags, gives an item in its order, with
  -- that name, up where the lowest bit of the flags is set, and with the speed and the duplex (full for 1, half
  -- for 0) that SIOCETHTOOL tells of it, or zeroes and an unknown duplex. In a build without HAVE_ETHTOOL_CMD_SPEED_HI the
  -- speed is always 0. A name that cannot be copied ends the reading with an error that is returned; without
  -- memory for an item it is stored through NULL. Where the file is not opened, `SG_ERROR_OPEN` is
  -- returned and set, and the vector stays.
  pub network_iface_lem :
      (raw : IfaceStats) (f : Stream) (a b : Bytes) (lines : List Bytes) (e : ℕ) (socket : Option ℕ)
      (v : SgVector IfaceStats) (w : World)
      → lines_of iface_buf_size f.text ≡ a ∷ b ∷ lines
      → IsValid v
      → v.info ≡ network_iface_info raw
      → v.used_count ≡ 0
      → Room v.block_shift (length lines) 40
      → Listing
          (λ a b. a ≡ b)
          (all_made iface_made lines)
          w
          (sg_get_network_iface_stats_int speed_hi flags ethtool now raw (opened f) none v w)
        × (let (rc, p, w') =
              sg_get_network_iface_stats_int speed_hi flags ethtool now raw
                (refused e)
                socket
                v
                w in
            (p ≡ live v) × Failed error_open e w (rc, w'))
  unfolding sg_get_network_iface_stats_int iface_socket
  network_iface_lem raw f a b lines e socket v w is valid same unused room = (
    subst
        (λ ls.
          Listing (λ a b. a ≡ b) (all_made iface_made lines) w
            (iface_lines speed_hi flags ethtool now raw f ls v w))
        (sym is) (found_lem raw f a b lines v w valid same unused room),
    (refl, set_with_errno-Failed error_open (codes "/proc/net/dev") e w),
  )
