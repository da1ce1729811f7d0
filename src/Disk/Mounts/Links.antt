-- ===== src/Disk/Mounts/Links.antt =====
-- The loop over symbolic links ends.
use libstatgrab.Base.{
  ℕ, zero, suc, ◌≤◌, ◌≡◌, refl, ap, subst, sym, ◌∙◌, [], some, length, take-length, ◌⊎◌, inl, inr,
}
use libstatgrab.Base.Bytes.{Bytes}
use libstatgrab.Error.{World}
use libstatgrab.Error.Codes.{error_none}
use libstatgrab.Tools.Chains.{Ends, and_then-same, and_then-done, and_then-Ends}
use libstatgrab.Tools.Strings.Updates.{Updated, lupdate_string_lem, lupdate_string-plenty}
use libstatgrab.Tools.Strings.{sg_lupdate_string}
use libstatgrab.Disk.{FsStats}
use libstatgrab.Disk.Mounts.{Link, no_link, broken, target, link_size, link_fuel, resolve}

abbrev pub renamed : Bytes → FsStats → FsStats
renamed s d = record d { device_canonical = some s }

Link-cases : (l : Link) → (l ≡ no_link) ⊎ (l ≡ broken) ⊎ ((p : Bytes) × (l ≡ target p))
Link-cases no_link = inl refl
Link-cases broken = inr (inl refl)
Link-cases (target p) = inr (inr (p, refl))

abbrev pub followed : Bytes → Link → Bytes
followed s no_link = s
followed s broken = s
followed s (target p) = p

module _ (link : Bytes → Link) where
  -- What `realpath` gives is no symbolic link, and fits in its buffer.
  abbrev pub Resolves : Type 0
  Resolves = (s p : Bytes) → link s ≡ target p → (link p ≡ no_link) × (length p ≤ link_size)

  -- The name in the end.
  abbrev pub resolved : Bytes → Bytes
  resolved s = followed s (link s)

  -- A name that is no link ends the loop, whatever the fuel.
  resolve-no_link :
      (fuel : ℕ) (s : Bytes) (d : FsStats) (w : World)
      → link s ≡ no_link
      → resolve link fuel (renamed s d) w ≡ (error_none, renamed s d, w)
  unfolding resolve
  resolve-no_link zero s d w h = refl
  resolve-no_link (suc fuel) s d w h = rw (h, resolve)

  -- The loop over symbolic links ends after two tests at most, where `realpath` gives no links: more
  -- fuel changes nothing. It leaves the resolved name, or the error of a copy that failed.
  pub resolve_lem :
      (fuel : ℕ) (s : Bytes) (d : FsStats) (w : World)
      → Resolves
      → (resolve link (suc (suc fuel)) (renamed s d) w ≡ resolve link link_fuel (renamed s d) w)
        × Ends (renamed (resolved s) d) w (resolve link link_fuel (renamed s d) w)
  unfolding resolve
  resolve_lem fuel s d w real = elim (Link-cases (link s)) [
    | inl e ↦ rw (e, resolve) (refl, (refl, inl (refl, refl)))
    | inr (inl e) ↦ rw (e, resolve) (refl, (refl, inl (refl, refl)))
    | inr (inr (p, e)) ↦
        let (whole, short) = real s p e in
        let copied : Updated (some s) (some p) w (sg_lupdate_string (some s) (some p) link_size w) =
          subst (λ t. Updated (some s) (some t) w (sg_lupdate_string (some s) (some p) link_size w))
            (take-length link_size p short) (lupdate_string_lem (some s) p link_size w) in
        rw (e, resolve)
          (
            and_then-same _ (some s) (some p) w _ _ _ copied (λ w1.
                resolve-no_link (suc fuel) p d w1 whole ∙ sym (resolve-no_link 1 p d w1 whole)),
            and_then-Ends (renamed p d) _ (some s) (some p) w _ _ copied
                (λ w1. rw (resolve-no_link 1 p d w1 whole) (refl, inl (refl, refl))),
          )
  ]

  -- With memory, the name is the resolved one.
  pub resolve-plenty :
      (s : Bytes) (d : FsStats) (w : World)
      → Resolves
      → w.oom ≡ []
      → resolve link link_fuel (renamed s d) w ≡ (error_none, renamed (resolved s) d, w)
  unfolding resolve
  resolve-plenty s d w real h = elim (Link-cases (link s)) [
    | inl e ↦ rw (e, resolve)
    | inr (inl e) ↦ rw (e, resolve)
    | inr (inr (p, e)) ↦
        let (whole, short) = real s p e in
        rw (e, resolve)
          (and_then-done _ (some p) w _ _ (
              lupdate_string-plenty (some s) p link_size w h
              ∙ ap (λ (t : Bytes). (error_none, some t, w)) (take-length link_size p short))
            ∙ resolve-no_link 1 p d w whole)
  ]
