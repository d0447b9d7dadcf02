-- ===== src/Store/Fields.antt =====
-- The columns that the clauses of UpdateBenchmarkSet in internal/store/benchmark_set.go write.
use mathlib.Core.List.{mem-cons_self, mem-cons_of_mem}
use mathlib.Core.Option
use mathlib.Core.Path.{ap₂}
use subnet_benchmark.Prelude.{
  ℕ, ◌≡◌, refl, sym, ap, subst, ◌∙◌, not, List, [], ◌∷◌, map, Mem, All, Option, none, some, String,
  str_eq, str_eq_iff, inl, inr, Bool-cases, if◌then◌else◌,
}
use subnet_benchmark.Model.{BenchmarkSet}
use subnet_benchmark.Store.Rows.{find_row, select, update_rows}
use subnet_benchmark.Store.Questions.{set_has_id}
use subnet_benchmark.Store.Sets.{
  Column, Entry, Conversion, allowed_bs_fields, lookup, set_column, set_columns, or_else,
  join_column, set_clauses,
}

-- The columns that no update writes.
pub record Fixed : Type 0 where
  pub set_id : String
  pub total_questions : ℕ
  pub qualified_questions : ℕ
  pub created_at : ℕ

abbrev pub fixed : BenchmarkSet → Fixed
fixed b = record {
  set_id = b.set_id;
  total_questions = b.total_questions;
  qualified_questions = b.qualified_questions;
  created_at = b.created_at;
}

-- The keys that an update may have.
abbrev pub known_keys : List String
known_keys =
    "description" ∷ "question_requirements" ∷ "answer_requirements" ∷ "question_maxlen"
    ∷ "answer_maxlen" ∷ "answer_check_method" ∷ "status" ∷ []

-- A column that is not one of the fixed.
abbrev pub Writable : Column → Type 0
Writable Column.set_id = ⊥
Writable Column.total_questions = ⊥
Writable Column.qualified_questions = ⊥
Writable Column.created_at = ⊥
Writable _ = Unit {0}

-- What is found under a key has what all values have, and the key is one of the keys.
lookup-All :
    {A : Type 0} (P : A → Type 0) (key : String) (entries : List (Entry A)) (a : A)
    → All (λ e. P e.value) entries
    → lookup key entries ≡ some a
    → P a × Mem key (map (λ e. e.key) entries)
unfolding lookup
lookup-All P key [] a all e = absurd (no e)
  where
    no : none ≡ some a → ⊥
    no e' = cc
lookup-All P key (x ∷ entries) a all e = elim (Bool-cases (str_eq x.key key)) [
  | inl it ↦ (
    subst P (Option.some-injective _ _ (rw it at e)) all.0,
    rw (sym ((str_eq_iff x.key key).0 it)) mem-cons_self,
  )
  | inr other ↦
      let (p, there) = lookup-All P key entries a all.1 (rw other at e) in
      (p, mem-cons_of_mem _ there)
]

map-fixed :
    {A : Type 0} (o : Option A) (f : A → BenchmarkSet) (b b' : BenchmarkSet)
    → ((a : A) → fixed (f a) ≡ fixed b)
    → Option.map f o ≡ some b'
    → fixed b' ≡ fixed b
map-fixed none f b b' h e = absurd (no e)
  where
    no : none ≡ some b' → ⊥
    no e' = cc
map-fixed (some a) f b b' h e = ap fixed (sym (Option.some-injective _ _ e)) ∙ h a

module _ {V : Type 0} (convert : Conversion V) where
  set_column-fixed :
      (c : Column) (v : V) (b b' : BenchmarkSet)
      → Writable c
      → set_column convert c v b ≡ some b'
      → fixed b' ≡ fixed b
  set_column-fixed Column.set_id v b b' h e = absurd h
  set_column-fixed Column.total_questions v b b' h e = absurd h
  set_column-fixed Column.qualified_questions v b b' h e = absurd h
  set_column-fixed Column.created_at v b b' h e = absurd h
  set_column-fixed Column.description v b b' h e = map-fixed _ _ b b' (λ a. refl) e
  set_column-fixed Column.question_requirements v b b' h e = map-fixed _ _ b b' (λ a. refl) e
  set_column-fixed Column.answer_requirements v b b' h e = map-fixed _ _ b b' (λ a. refl) e
  set_column-fixed Column.question_maxlen v b b' h e = map-fixed _ _ b b' (λ a. refl) e
  set_column-fixed Column.answer_maxlen v b b' h e = map-fixed _ _ b b' (λ a. refl) e
  set_column-fixed Column.answer_check_method v b b' h e = map-fixed _ _ b b' (λ a. refl) e
  set_column-fixed Column.status v b b' h e = map-fixed _ _ b b' (λ a. refl) e

  abbrev pub AllWritable : List (Column × V) → Type 0
  AllWritable columns = All (λ c. Writable c.0) columns

  set_columns-fixed :
      (columns : List (Column × V)) (b : BenchmarkSet)
      → AllWritable columns
      → fixed (or_else b (set_columns convert columns b)) ≡ fixed b
  unfolding set_columns
  set_columns-fixed [] b all = refl
  set_columns-fixed (c ∷ columns) b all =
      first (λ b'. set_columns-fixed columns b' all.1) (set_column convert c.0 c.1 b) refl
    where
      ended :
          (b' : BenchmarkSet) (o : Option BenchmarkSet)
          → fixed b' ≡ fixed b
          → fixed (or_else b' o) ≡ fixed b'
          → fixed (or_else b o) ≡ fixed b
      ended b' none one two = refl
      ended b' (some b2) one two = two ∙ one

      first :
          ((b' : BenchmarkSet) → fixed (or_else b' (set_columns convert columns b')) ≡ fixed b')
          → (o : Option BenchmarkSet) → set_column convert c.0 c.1 b ≡ o
          → fixed (or_else b (set_columns convert (c ∷ columns) b)) ≡ fixed b
      first later none e = rw e refl
      first later (some b') e = rw e (
          ended b' (set_columns convert columns b') (set_column-fixed c.0 c.1 b b' all.0 e)
            (later b'))

  -- An update that is let through has known keys, and writes none of the fixed columns.
  pub set_clauses-Writable :
      (fields : List (Entry V)) (columns : List (Column × V))
      → set_clauses fields ≡ some columns
      → AllWritable columns × All (λ f. Mem f.key known_keys) fields
  unfolding set_clauses
  set_clauses-Writable [] columns e = rw (sym (Option.some-injective _ _ e)) (tt, tt)
  set_clauses-Writable (f ∷ fields) columns e =
      joined (λ rest two. set_clauses-Writable fields rest two) (lookup f.key allowed_bs_fields)
        (set_clauses fields) refl refl e
    where
      no : none ≡ some columns → ⊥
      no e' = cc

      joined :
          ((rest : List (Column × V))
            → set_clauses fields ≡ some rest
            → AllWritable rest × All (λ f. Mem f.key known_keys) fields)
          → (column : Option Column) (rest : Option (List (Column × V)))
          → lookup f.key allowed_bs_fields ≡ column
          → set_clauses fields ≡ rest
          → join_column f.value column rest ≡ some columns
          → AllWritable columns × All (λ f. Mem f.key known_keys) (f ∷ fields)
      joined later none none one two e' = absurd (no e')
      joined later none (some rest) one two e' = absurd (no e')
      joined later (some column) none one two e' = absurd (no e')
      joined later (some column) (some rest) one two e' =
          let (writable, known) =
            lookup-All Writable f.key allowed_bs_fields column
              (tt, (tt, (tt, (tt, (tt, (tt, (tt, tt))))))) one in
          let (all, keys) = later rest two in
          (subst AllWritable (Option.some-injective _ _ e') (writable, all), (known, keys))

  module _ (id : String) (columns : List (Column × V)) (all : AllWritable columns) where
    abbrev pub change : BenchmarkSet → BenchmarkSet
    change b = or_else b (set_columns convert columns b)

    pub update_rows-fixed :
        (sets : List BenchmarkSet)
        → map fixed (update_rows (set_has_id id) change sets) ≡ map fixed sets
    unfolding update_rows
    update_rows-fixed [] = refl
    update_rows-fixed (b ∷ sets) = ap₂ ◌∷◌ row (update_rows-fixed sets)
      where
        row : fixed (if set_has_id id b then change b else b) ≡ fixed b
        row = elim (Bool-cases (set_has_id id b)) [
          | inl it ↦ rw it (set_columns-fixed columns b all)
          | inr other ↦ rw other refl
        ]

    same_id : (b : BenchmarkSet) → set_has_id id (change b) ≡ set_has_id id b
    same_id b = ap (λ (k : Fixed). str_eq k.set_id id) (set_columns-fixed columns b all)

    pub select-others :
        (sets : List BenchmarkSet)
        → select (λ b. not (set_has_id id b)) (update_rows (set_has_id id) change sets)
          ≡ select (λ b. not (set_has_id id b)) sets
    unfolding select update_rows
    select-others [] = refl
    select-others (b ∷ sets) = elim (Bool-cases (set_has_id id b)) [
      | inl it ↦ rw (it, same_id b, it) (select-others sets)
      | inr other ↦ rw (other, other) (ap (◌∷◌ b) (select-others sets))
    ]

    -- The row of the identifier is the changed one.
    pub find_row-changed :
        (sets : List BenchmarkSet) (b : BenchmarkSet)
        → find_row (set_has_id id) sets ≡ some b
        → find_row (set_has_id id) (update_rows (set_has_id id) change sets) ≡ some (change b)
    unfolding find_row update_rows
    find_row-changed [] b e = absurd (no e)
      where
        no : none ≡ some b → ⊥
        no e' = cc
    find_row-changed (x ∷ sets) b e = elim (Bool-cases (set_has_id id x)) [
      | inl it ↦
          rw (it, same_id x, it)
            (ap (λ y. some (change y)) (Option.some-injective _ _ (rw it at e)))
      | inr other ↦ rw (other, other) (find_row-changed sets b (rw other at e))
    ]
