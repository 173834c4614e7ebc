-- ===== src/Catalog/Resolve/Settling.antt =====
-- src/catalog/resolve.rs: what becomes of the entries that the catalog's text carries.
use mathlib.Core.List.{Mem, mem-cons_self, mem-cons_of_mem, mem-append_left, mem-cons, Mem-prop}
use mathlib.Core.Logic.Or
use maestro_llamacpp.Common.{
  ℕ, not, Option, some, List, [], ◌∷◌, ◌++◌, ◌≡◌, refl, sym, ◌∙◌, inl, inr, Bool-cases,
  if◌then◌else◌, ltb,
}
use maestro_llamacpp.Common.Text.{Text, mem_text}
use maestro_llamacpp.Common.Maps.{text_lt}
use maestro_llamacpp.Catalog.{Entry}
use maestro_llamacpp.Catalog.Disk.{Disk}
use maestro_llamacpp.Catalog.Estimate.{
  Derived, Basis, from_metadata, from_size, Attempt, made, failed, derive,
}
use maestro_llamacpp.Catalog.Read.Entries.{Drafts}
use maestro_llamacpp.Catalog.Discover.{under, note}
use maestro_llamacpp.Catalog.Resolve.{
  Ledger, Reading, read_as, settle_declared, settle_derived, size_noted, insert_by_id, sort_by_id,
  settle, settle_all, with_discovered, unless_problems, first_ledger, read_catalog,
}

-- A declared estimate is kept, and one that is not is derived.
abbrev pub SettlesTo : {P : Type 0} → Disk P → List Text → Entry → Entry → Type 0
SettlesTo disk undeclared e kept =
    if mem_text e.id undeclared
    then ((d : Derived) × (derive disk e ≡ made d)
        × (kept ≡ record e { memory_estimate_mib = d.mib }))
    else (kept ≡ e)

settle_declared-problems :
    (e : Entry) (attempt : Attempt Derived) (ledger : Ledger)
    → (settle_declared e attempt ledger).problems ≡ ledger.problems
unfolding settle_declared
settle_declared-problems e (failed reason) ledger = refl
settle_declared-problems e (made d) ledger = elim (Bool-cases (ltb e.memory_estimate_mib d.mib)) [
  | inl h ↦ rw (h, settle_declared) refl
  | inr h ↦ rw (h, settle_declared) refl
]

size_noted-problems :
    (e : Entry) (mib : ℕ) (basis : Basis) (ledger : Ledger)
    → (size_noted e (record { mib = mib; basis = basis }) ledger).problems ≡ ledger.problems
size_noted-problems e mib from_metadata ledger = refl
size_noted-problems e mib from_size ledger = refl

note_not_empty : (lines : List Text) (line : Text) → note lines line ≡ [] → ⊥
note_not_empty [] line h = cc
note_not_empty (l ∷ lines) line h = cc

settle_derived_quiet :
    (e : Entry) (attempt : Attempt Derived) (ledger : Ledger)
    → (settle_derived e attempt ledger).1.problems ≡ []
    → (ledger.problems ≡ [])
      × ((d : Derived) × (attempt ≡ made d)
          × ((settle_derived e attempt ledger).0 ≡ some (record e { memory_estimate_mib = d.mib })))
unfolding settle_derived
settle_derived_quiet e (failed reason) ledger h = absurd (note_not_empty ledger.problems _ h)
settle_derived_quiet e (made d) ledger h =
    (sym (size_noted-problems e d.mib d.basis ledger) ∙ h, (d, refl, refl))

module _ {P : Type 0} (disk : Disk P) where
  -- What an entry settles to, when its problem is not on the ledger.
  abbrev HasSettled : List Text → Entry → Option Entry → Type 0
  HasSettled undeclared e settled =
      (kept : Entry) × (settled ≡ some kept) × SettlesTo disk undeclared e kept

  settle_quiet :
      (undeclared : List Text) (e : Entry) (ledger : Ledger)
      → (settle disk e (not (mem_text e.id undeclared)) ledger).1.problems ≡ []
      → (ledger.problems ≡ [])
        × HasSettled undeclared e (settle disk e (not (mem_text e.id undeclared)) ledger).0
  unfolding settle
  settle_quiet undeclared e ledger h = elim (Bool-cases (mem_text e.id undeclared)) [
    | inl m ↦
        let (quiet, (d, derived, kept)) =
          settle_derived_quiet e (derive disk e) ledger (rw (m, settle) at h) in
        rw (m, settle) (quiet, (record e { memory_estimate_mib = d.mib }, kept, (d, derived, refl)))
    | inr m ↦
        rw (m, settle)
          (
            sym (settle_declared-problems e (derive disk e) ledger) ∙ (rw (m, settle) at h),
            (e, refl, refl),
          )
  ]

  -- Every entry of a list settles to one of another.
  abbrev pub AllSettle : List Text → List Entry → List Entry → Type 0
  AllSettle undeclared [] kept = Unit
  AllSettle undeclared (e ∷ entries) kept =
      ((k : Entry) × SettlesTo disk undeclared e k × Mem k kept) × AllSettle undeclared entries kept

  AllSettle-imp :
      (undeclared : List Text) (entries xs ys : List Entry)
      → ((k : Entry) → Mem k xs → Mem k ys)
      → AllSettle undeclared entries xs
      → AllSettle undeclared entries ys
  AllSettle-imp undeclared [] xs ys f h = tt
  AllSettle-imp undeclared (e ∷ entries) xs ys f ((k, settles, m), rest) =
      ((k, settles, f k m), AllSettle-imp undeclared entries xs ys f rest)

  settle_all_quiet :
      (undeclared : List Text) (entries : List Entry) (ledger : Ledger)
      → (settle_all disk undeclared entries ledger).1.problems ≡ []
      → (ledger.problems ≡ [])
        × AllSettle undeclared entries (settle_all disk undeclared entries ledger).0
  unfolding settle_all
  settle_all_quiet undeclared [] ledger h = (h, tt)
  settle_all_quiet undeclared (e ∷ entries) ledger h =
      let settled = settle disk e (not (mem_text e.id undeclared)) ledger in
      let (before, rest) = settle_all_quiet undeclared entries settled.1 h in
      let (quiet, (kept, same, settles)) = settle_quiet undeclared e ledger before in
      (
        quiet,
        rw (same, settle_all)
            (
              (kept, settles, mem-cons_self),
              AllSettle-imp undeclared entries _ _ (λ k m. mem-cons_of_mem kept m) rest,
            ),
      )

  mem-insert_by_id :
      (e : Entry) (entries : List Entry) (k : Entry)
      → Mem k (e ∷ entries)
      → Mem k (insert_by_id e entries)
  unfolding insert_by_id
  mem-insert_by_id e [] k m = m
  mem-insert_by_id e (f ∷ entries) k m =
      let further =
        λ (n : Mem k (e ∷ entries)). mem-cons_of_mem f (mem-insert_by_id e entries k n) in
      elim (Bool-cases (text_lt f.id e.id)) [
        | inr h ↦ rw h m
        | inl h ↦ rw h (
            Or.elim Mem-prop (mem-cons.0 m) (λ q. further (rw q mem-cons_self))
              (λ n.
                Or.elim Mem-prop (mem-cons.0 n) (λ q. rw q mem-cons_self)
                  (λ o. further (mem-cons_of_mem e o))))
      ]

  mem-sort_by_id : (entries : List Entry) (k : Entry) → Mem k entries → Mem k (sort_by_id entries)
  unfolding sort_by_id
  mem-sort_by_id [] k m = m
  mem-sort_by_id (e ∷ entries) k m = mem-insert_by_id e (sort_by_id entries) k (
      Or.elim Mem-prop (mem-cons.0 m) (λ q. rw q mem-cons_self)
        (λ n. mem-cons_of_mem e (mem-sort_by_id entries k n)))

  unless_problems_quiet :
      (drafts : Drafts) (entries : List Entry) (ledger : Ledger) (problems : List Text)
      (reading : Reading)
      → unless_problems disk drafts entries ledger problems ≡ read_as reading
      → (problems ≡ [])
        × (reading.catalog.entries
            ≡ sort_by_id (entries ++ (under disk entries drafts.defaults ledger.notes).0))
  unfolding with_discovered
  unless_problems_quiet drafts entries ledger [] reading h = (refl, cc)
  unless_problems_quiet drafts entries ledger (p ∷ problems) reading h = cc

  -- A catalog that is read without a problem has every entry of its text: one that declares an
  -- estimate unchanged, and one that does not with the estimate that its files give.
  pub read_catalog-AllSettle :
      (drafts : Drafts) (reading : Reading)
      → read_catalog disk drafts ≡ read_as reading
      → AllSettle drafts.undeclared drafts.entries reading.catalog.entries
  unfolding read_catalog
  read_catalog-AllSettle drafts reading h =
      let settled = settle_all disk drafts.undeclared drafts.entries (first_ledger disk drafts) in
      let (quiet, listed) =
        unless_problems_quiet drafts settled.0 settled.1 settled.1.problems reading h in
      let found = (under disk settled.0 drafts.defaults settled.1.notes).0 in
      let (clean, settles) =
        settle_all_quiet drafts.undeclared drafts.entries (first_ledger disk drafts) quiet in
      rw listed (
        AllSettle-imp drafts.undeclared drafts.entries settled.0 (sort_by_id (settled.0 ++ found))
          (λ k m. mem-sort_by_id (settled.0 ++ found) k (mem-append_left found m)) settles)
