-- ===== src/MapReduce/Partition.antt =====
-- mapreduce/common_map.go: a map task puts every pair into the file of its reduce task.
use Prim.Native.String.{String, ◌++◌ as concat}
use distribution_system.Prelude.{
  ℕ, zero, suc, ◌+◌, ◌%◌, ◌<◌, ◌≤◌, ◌≡◌, ◌≢◌, refl, sym, ◌∙◌, ap, ◌==◌, ==_iff, Bool-cases, ◌⊎◌,
  inl, inr, none, some, List, [], ◌∷◌, if◌then◌else◌, arith, done,
}
use distribution_system.Prelude.Dict.{lookup, insert, lookup-insert, string_eq}
use distribution_system.MapReduce.Types.{KeyValue}
use distribution_system.MapReduce.Host.{Host, Files, ihash, reduce_name, create, append_to}
use distribution_system.MapReduce.Names.{IsHost, reduce_name_injective}
use distribution_system.MapReduce.Tasks.{create_all, bin_of, write_all, do_map}
use text.Mathlib.Text.{◌==◌ as str_eq}
use text.Mathlib.TextEquality.{eq_iff}

-- What a file has behind more values.
unfoldable pub appended : Host → String → List KeyValue → String
appended host s [] = s
appended host s (kv ∷ kvs) = appended host (concat s (host.encode kv)) kvs

-- The pairs that belong to reduce task `r` of `n`, in order.
unfoldable pub bucket : Host → ℕ → ℕ → List KeyValue → List KeyValue
unfolding ihash
bucket host n r [] = []
bucket host n r (kv ∷ kvs) =
    let rest = bucket host n r kvs in if ihash host kv.key % n == r then kv ∷ rest else rest

module _ (host : Host) (laws : IsHost host) (job_name : String) (map_task : ℕ) where
  -- A name of this task's files.
  abbrev name : ℕ → String
  name r = reduce_name host job_name map_task r

  eq_name : (r s : ℕ) → str_eq (name r) (name s) ≡ (r == s)
  eq_name r s = elim (Bool-cases (r == s)) [
    | inl e ↦ let p : r ≡ s = (==_iff r s).0 e in rw e ((eq_iff (name r) (name s)).1 (ap name p))
    | inr e ↦ elim (Bool-cases (str_eq (name r) (name s))) [
      | inl q ↦
          let p =
            reduce_name_injective host laws job_name map_task r s
              ((eq_iff (name r) (name s)).0 q) in
          absurd (ground (arith, ==_iff r s))
      | inr q ↦ q ∙ sym e
    ]
  ]

  lookup-append_to :
      (r s : ℕ) (text old : String) (files : Files)
      → lookup (name s) files ≡ some old
      → lookup (name s) (append_to (name r) text files)
        ≡ some (if r == s then concat old text else old)
  unfolding append_to
  lookup-append_to r s text old files h =
      let before = elim (lookup (name r) files) as (λ _. String) [ none ↦ "" | some t ↦ t ] in
      let l = lookup-insert (name r) (name s) (concat before text) files in
      elim (Bool-cases (r == s)) [
        | inl e ↦
            let p : r ≡ s = (==_iff r s).0 e in
            let q : before ≡ old = rw (p, h) refl in
            l ∙ rw (eq_name r s, e) (ap (λ t. some (concat t text)) q)
        | inr e ↦ l ∙ rw (eq_name r s, e) h
      ]

  appended-bucket :
      (kv : KeyValue) (kvs : List KeyValue) (n r : ℕ) (old : String)
      → appended host
          (if ihash host kv.key % n == r then concat old (host.encode kv) else old)
          (bucket host n r kvs)
        ≡ appended host old (bucket host n r (kv ∷ kvs))
  unfolding appended bucket
  appended-bucket kv kvs n r old = elim (Bool-cases (ihash host kv.key % n == r)) [
    | inl e ↦ rw e refl
    | inr e ↦ rw e refl
  ]

  write_all-lookup :
      (kvs : List KeyValue) (n r : ℕ) (old : String) (files : Files)
      → lookup (name r) files ≡ some old
      → (files' : Files) × (write_all host job_name map_task (suc n) kvs files ≡ done files')
        × (lookup (name r) files' ≡ some (appended host old (bucket host (suc n) r kvs)))
  unfolding write_all bin_of appended bucket
  write_all-lookup [] n r old files h = (files, refl, h)
  write_all-lookup (kv ∷ kvs) n r old files h =
      let b = ihash host kv.key % suc n in
      let l = lookup-append_to b r (host.encode kv) old files h in
      let (files', e, l') =
        write_all-lookup kvs n r (if b == r then concat old (host.encode kv) else old)
          (append_to (name b) (host.encode kv) files) l in
      (files', e, l' ∙ ap some (appended-bucket kv kvs (suc n) r old))

  create-lookup :
      (i r : ℕ) (files : Files)
      → (i ≤ r) ⊎ (lookup (name r) files ≡ some "")
      → (i + 1 ≤ r) ⊎ (lookup (name r) (insert (name i) "" files) ≡ some "")
  create-lookup i r files h =
      let l = lookup-insert (name i) (name r) "" files in
      elim (Bool-cases (i == r)) [
        | inl e ↦ inr (l ∙ rw (eq_name i r, e) refl)
        | inr e ↦ elim h [
          | inl le ↦ inl (ground (arith, ==_iff i r))
          | inr q ↦ inr (l ∙ rw (eq_name i r, e) q)
        ]
      ]

  insert-other :
      (i : ℕ) (other : String) (files : Files)
      → name i ≢ other
      → lookup other (insert (name i) "" files) ≡ lookup other files
  insert-other i other files differs = elim (Bool-cases (str_eq (name i) other)) [
    | inl q ↦ absurd (differs ((eq_iff (name i) other).0 q))
    | inr q ↦ lookup-insert (name i) other "" files ∙ rw q refl
  ]

  create_all-lookup :
      (i n r : ℕ) (other : String) (files : Files)
      → (i ≤ r) ⊎ (lookup (name r) files ≡ some "")
      → r < i + n
      → ((j : ℕ) → name j ≢ other)
      → (files' : Files) × (create_all host job_name map_task i n files ≡ done files')
        × (lookup (name r) files' ≡ some "")
        × (lookup other files' ≡ lookup other files)
  unfolding create_all create
  create_all-lookup i zero r other files (inl h) k differs = absurd (omega arith)
  create_all-lookup i zero r other files (inr h) k differs = (files, refl, h, refl)
  create_all-lookup i (suc n) r other files h k differs =
      let files1 = insert (name i) "" files in
      let h1 = create-lookup i r files h in
      let k1 : r < (i + 1) + n = omega arith in
      let (files', e, a, b) = create_all-lookup (i + 1) n r other files1 h1 k1 differs in
      (files', rw (laws.creates (name i)) e, a, b ∙ insert-other i other files (differs i))

  -- Where files can be created and two numbers have two texts, a map task with at least one reduce
  -- task and an input file that is there and is none of its own files ends, and the file
  -- of each reduce task holds, one after the other, the pairs whose key has the task's number as
  -- its hash modulo the number of reduce tasks.
  pub do_map_partitions :
      (in_file contents : String) (n r : ℕ) (map_f : String → String → List KeyValue)
      (files : Files)
      → lookup in_file files ≡ some contents
      → ((j : ℕ) → reduce_name host job_name map_task j ≢ in_file)
      → r < suc n
      → (files' : Files) × (do_map host job_name map_task in_file (suc n) map_f files ≡ done files')
        × (lookup (reduce_name host job_name map_task r) files'
            ≡ some (appended host "" (bucket host (suc n) r (map_f in_file contents))))
  unfolding do_map
  do_map_partitions in_file contents n r map_f files h differs k =
      let k' : r < 0 + suc n = omega arith in
      let (files1, e, a, b) =
        create_all-lookup 0 (suc n) r in_file files (inl (omega arith)) k' differs in
      let (files', e', a') = write_all-lookup (map_f in_file contents) n r "" files1 a in
      (files', rw (e, b, h) e', a')
