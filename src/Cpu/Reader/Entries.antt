-- ===== src/Cpu/Reader/Entries.antt =====
-- The lines of /proc/stat that the loop of `sg_get_cpu_stats_int` reads, and the numbers in them.
use libstatgrab.Base.{
  ℕ, ◌≡◌, refl, arith, leb, Bool, true, false, ◌==◌, ◌||◌, ◌&&◌, not, List, [], ◌∷◌, Option, none,
  some, length, get_elem?, if◌then◌else◌,
}
use libstatgrab.Base.Bytes.{Bytes, codes}
use libstatgrab.Stdio.{strncmp_eq, sscanf_after}
use libstatgrab.Stdio.Prefixes.{add_value, last_or}
use libstatgrab.Cpu.{CpuStats}
use libstatgrab.Cpu.Reader.{
  blank_at, CpuWord, cpu_word, intr_word, ctxt_word, softirq_word, line_word, cpu_numbers,
  cpu_store, cpu_wrong,
}

-- A line of interest: its word, and the numbers after it.
abbrev pub Entry : Type 0
Entry = CpuWord × List ℕ

-- A line begins with a word, and a blank or a tab follows.
abbrev begins_blank : Bytes → Bytes → Bool
begins_blank [] [] = false
begins_blank [] (c ∷ line) = (c == 32) || (c == 9)
begins_blank (x ∷ word) [] = false
begins_blank (x ∷ word) (c ∷ line) = (x == c) && begins_blank word line

abbrev pub word_of : Bytes → Option CpuWord
word_of line =
    if begins_blank (codes "cpu") line
    then some cpu_word
    else if begins_blank (codes "intr") line
    then some intr_word
    else if begins_blank (codes "ctxt") line
    then some ctxt_word
    else if begins_blank (codes "softirq") line
    then some softirq_word
    else none

-- The numbers after the word: up to five after `cpu`, one after the others.
abbrev pub numbers_of : CpuWord → Bytes → List ℕ
numbers_of cpu_word line = sscanf_after (codes "cpu") 5 line
numbers_of intr_word line = sscanf_after (codes "intr") 1 line
numbers_of ctxt_word line = sscanf_after (codes "ctxt") 1 line
numbers_of softirq_word line = sscanf_after (codes "softirq") 1 line

pub cpu_numbers-of : (k : CpuWord) (line : Bytes) → cpu_numbers k line ≡ numbers_of k line
unfolding cpu_numbers
cpu_numbers-of cpu_word line = refl
cpu_numbers-of intr_word line = refl
cpu_numbers-of ctxt_word line = refl
cpu_numbers-of softirq_word line = refl

strncmp_blank :
    (word line : Bytes)
    → (strncmp_eq line word (length word) && blank_at line (length word)) ≡ begins_blank word line
unfolding strncmp_eq
strncmp_blank [] [] = refl
strncmp_blank [] (c ∷ line) = ground arith
strncmp_blank (x ∷ word) [] = refl
strncmp_blank (x ∷ word) (c ∷ line) = ground (arith, strncmp_blank word line)

pub line_word_lem : (line : Bytes) → line_word line ≡ word_of line
unfolding line_word
line_word_lem line =
    rw
      (
        strncmp_blank (codes "cpu") line,
        strncmp_blank (codes "intr") line,
        strncmp_blank (codes "ctxt") line,
        strncmp_blank (codes "softirq") line,
      )
      refl

abbrev pub entry_of : Option CpuWord → Bytes → Option Entry
entry_of none line = none
entry_of (some k) line = some (k, numbers_of k line)

abbrev pub add_entry : Option Entry → List Entry → List Entry
add_entry none es = es
add_entry (some e) es = e ∷ es

abbrev pub entries : List Bytes → List Entry
entries [] = []
entries (line ∷ lines) = add_entry (entry_of (word_of line) line) (entries lines)

-- Four or five numbers after `cpu`, one after the other words.
abbrev pub good : Entry → Bool
good (cpu_word, ns) = leb 4 (length ns) && leb (length ns) 5
good (intr_word, ns) = leb 1 (length ns) && leb (length ns) 1
good (ctxt_word, ns) = leb 1 (length ns) && leb (length ns) 1
good (softirq_word, ns) = leb 1 (length ns) && leb (length ns) 1

pub good-wrong : (k : CpuWord) (ns : List ℕ) → good (k, ns) ≡ not (cpu_wrong k (length ns))
unfolding cpu_wrong
good-wrong cpu_word ns = ground arith
good-wrong intr_word ns = ground arith
good-wrong ctxt_word ns = ground arith
good-wrong softirq_word ns = ground arith

abbrev pub all_good : List Entry → Bool
all_good [] = true
all_good (e ∷ es) = good e && all_good es

abbrev pub same_word : CpuWord → CpuWord → Bool
same_word cpu_word cpu_word = true
same_word intr_word intr_word = true
same_word ctxt_word ctxt_word = true
same_word softirq_word softirq_word = true
same_word _ _ = false

-- The numbers in a place after a word.
abbrev pub number_at : CpuWord → ℕ → Entry → Option ℕ
number_at k i (j, ns) = if same_word k j then get_elem? ns i else none

abbrev pub numbers_at : CpuWord → ℕ → List Entry → List ℕ
numbers_at k i [] = []
numbers_at k i (e ∷ es) = add_value (number_at k i e) (numbers_at k i es)

abbrev pub apply_entry : Entry → CpuStats → CpuStats
apply_entry (k, ns) s = cpu_store k ns s

abbrev pub apply_entries : List Entry → CpuStats → CpuStats
apply_entries [] s = s
apply_entries (e ∷ es) s = apply_entries es (apply_entry e s)

-- Every counter is the last of its numbers, or what was there.
abbrev pub CountersOf : List Entry → CpuStats → CpuStats → Type 0
CountersOf es old s =
    (s.user ≡ last_or old.user (numbers_at cpu_word 0 es))
    × (s.nice ≡ last_or old.nice (numbers_at cpu_word 1 es))
    × (s.kernel ≡ last_or old.kernel (numbers_at cpu_word 2 es))
    × (s.idle ≡ last_or old.idle (numbers_at cpu_word 3 es))
    × (s.iowait ≡ last_or old.iowait (numbers_at cpu_word 4 es))
    × (s.interrupts ≡ last_or old.interrupts (numbers_at intr_word 0 es))
    × (s.context_switches ≡ last_or old.context_switches (numbers_at ctxt_word 0 es))
    × (s.soft_interrupts ≡ last_or old.soft_interrupts (numbers_at softirq_word 0 es))

pub apply_entries-CountersOf :
    (es : List Entry) (s : CpuStats) → CountersOf es s (apply_entries es s)
unfolding cpu_store
apply_entries-CountersOf [] s = (refl, refl, refl, refl, refl, refl, refl, refl)
apply_entries-CountersOf ((cpu_word, []) ∷ es) s = apply_entries-CountersOf es s
apply_entries-CountersOf ((cpu_word, u ∷ []) ∷ es) s =
    apply_entries-CountersOf es (cpu_store cpu_word (u ∷ []) s)
apply_entries-CountersOf ((cpu_word, u ∷ n ∷ []) ∷ es) s =
    apply_entries-CountersOf es (cpu_store cpu_word (u ∷ n ∷ []) s)
apply_entries-CountersOf ((cpu_word, u ∷ n ∷ k ∷ []) ∷ es) s =
    apply_entries-CountersOf es (cpu_store cpu_word (u ∷ n ∷ k ∷ []) s)
apply_entries-CountersOf ((cpu_word, u ∷ n ∷ k ∷ i ∷ []) ∷ es) s =
    apply_entries-CountersOf es (cpu_store cpu_word (u ∷ n ∷ k ∷ i ∷ []) s)
apply_entries-CountersOf ((cpu_word, u ∷ n ∷ k ∷ i ∷ o ∷ xs) ∷ es) s =
    apply_entries-CountersOf es (cpu_store cpu_word (u ∷ n ∷ k ∷ i ∷ o ∷ xs) s)
apply_entries-CountersOf ((intr_word, []) ∷ es) s = apply_entries-CountersOf es s
apply_entries-CountersOf ((intr_word, x ∷ xs) ∷ es) s =
    apply_entries-CountersOf es (cpu_store intr_word (x ∷ xs) s)
apply_entries-CountersOf ((ctxt_word, []) ∷ es) s = apply_entries-CountersOf es s
apply_entries-CountersOf ((ctxt_word, x ∷ xs) ∷ es) s =
    apply_entries-CountersOf es (cpu_store ctxt_word (x ∷ xs) s)
apply_entries-CountersOf ((softirq_word, []) ∷ es) s = apply_entries-CountersOf es s
apply_entries-CountersOf ((softirq_word, x ∷ xs) ∷ es) s =
    apply_entries-CountersOf es (cpu_store softirq_word (x ∷ xs) s)
