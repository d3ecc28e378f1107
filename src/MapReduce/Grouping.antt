-- ===== src/MapReduce/Grouping.antt =====
-- mapreduce/common_reduce.go: a reduce task gives every key all its values, in order.
use Prim.Native.String.{String, ◌++◌ as concat}
use mathlib.Core.List.{append_assoc, append-nil}
use distribution_system.Prelude.{
  ℕ, zero, suc, ◌+◌, ◌<◌, ◌≤◌, ◌≡◌, refl, sym, ◌∙◌, ap, Bool, false, ◌||◌, Bool-cases, inl, inr,
  some, List, [], ◌∷◌, ◌++◌, map, if◌then◌else◌, arith, done,
}
use distribution_system.Prelude.Dict.{Dict, lookup, insert, lookup-insert, eq_refl, string_eq}
use distribution_system.MapReduce.Types.{KeyValue}
use distribution_system.MapReduce.Host.{Host, Files, reduce_name, create, append_to}
use distribution_system.MapReduce.Tasks.{values_at, collect, read_all, emit, do_reduce}
use distribution_system.MapReduce.Names.{IsHost}
use distribution_system.MapReduce.Partition.{appended}
use text.Mathlib.Text.{◌==◌ as str_eq}
use text.Mathlib.TextEquality.{eq_iff}

-- The values under a key, in order.
unfoldable pub values_of : String → List KeyValue → List String
values_of k [] = []
values_of k (kv ∷ kvs) =
    let rest = values_of k kvs in if str_eq kv.key k then kv.value ∷ rest else rest

unfoldable pub has : String → List String → Bool
has k [] = false
has k (j ∷ keys) = str_eq j k || has k keys

-- The keys, each at its first place, behind those already seen.
unfoldable pub keys_of : List String → List KeyValue → List String
unfolding has
keys_of seen [] = seen
keys_of seen (kv ∷ kvs) = keys_of (if has kv.key seen then seen else seen ++ kv.key ∷ []) kvs

values_at-insert :
    (j k : String) (vs : List String) (kvs : Dict String (List String))
    → values_at k (insert j vs kvs) ≡ (if str_eq j k then vs else values_at k kvs)
values_at-insert j k vs kvs =
    let l = lookup-insert j k vs kvs in
    elim (Bool-cases (str_eq j k)) [
      | inl e ↦
          let l' : lookup k (insert j vs kvs) ≡ some vs = l ∙ rw e refl in
          rw (values_at, l', e) refl
      | inr e ↦
          let l' : lookup k (insert j vs kvs) ≡ lookup k kvs = l ∙ rw e refl in
          rw (values_at, l', e) refl
    ]

values_at-collect :
    (k : String) (kvs : List KeyValue) (m : Dict String (List String))
    → values_at k (collect kvs m) ≡ values_at k m ++ values_of k kvs
unfolding collect values_of
values_at-collect k [] m = sym (append-nil (values_at k m))
values_at-collect k (kv ∷ kvs) m =
    let m1 = insert kv.key (values_at kv.key m ++ kv.value ∷ []) m in
    let ih = values_at-collect k kvs m1 in
    let v = values_at-insert kv.key k (values_at kv.key m ++ kv.value ∷ []) m in
    elim (Bool-cases (str_eq kv.key k)) [
      | inl e ↦
          let p : kv.key ≡ k = (eq_iff kv.key k).0 e in
          let v' : values_at k m1 ≡ values_at kv.key m ++ kv.value ∷ [] = v ∙ rw e refl in
          ih
          ∙ ap (λ vs. vs ++ values_of k kvs) v'
          ∙ append_assoc (values_at kv.key m) (kv.value ∷ []) (values_of k kvs)
          ∙ rw (e, p) refl
      | inr e ↦
          let v' : values_at k m1 ≡ values_at k m = v ∙ rw e refl in
          ih ∙ ap (λ vs. vs ++ values_of k kvs) v' ∙ rw e refl
    ]

abbrev keys {ℓ} : {V : Type ℓ} → Dict String V → List String
keys m = map (λ entry. entry.0) m

keys-insert :
    (k : String) (vs : List String) (m : Dict String (List String))
    → keys (insert k vs m) ≡ (if has k (keys m) then keys m else keys m ++ k ∷ [])
unfolding insert has
keys-insert k vs [] = refl
keys-insert k vs ((j, w) ∷ m) =
    let ih = keys-insert k vs m in
    elim (Bool-cases (str_eq j k)) [
      | inl e ↦ let p : j ≡ k = (eq_iff j k).0 e in rw e (ap (λ x. x ∷ keys m) (sym p))
      | inr e ↦ elim (Bool-cases (has k (keys m))) [
        | inl q ↦ rw (e, q) (ap (◌∷◌ j) (ih ∙ rw q refl))
        | inr q ↦ rw (e, q) (ap (◌∷◌ j) (ih ∙ rw q refl))
      ]
    ]

keys-collect :
    (kvs : List KeyValue) (m : Dict String (List String))
    → keys (collect kvs m) ≡ keys_of (keys m) kvs
unfolding collect keys_of
keys-collect [] m = refl
keys-collect (kv ∷ kvs) m =
    let vs = values_at kv.key m ++ kv.value ∷ [] in
    keys-collect kvs (insert kv.key vs m) ∙ ap (λ s. keys_of s kvs) (keys-insert kv.key vs m)

-- The streams of the map tasks from `m` on, `n` of them, one after the other.
unfoldable pub all_streams : (ℕ → List KeyValue) → ℕ → ℕ → List KeyValue
all_streams streams m zero = []
all_streams streams m (suc n) = streams m ++ all_streams streams (m + 1) n

collect-append :
    (xs bs : List KeyValue) (m : Dict String (List String))
    → collect (xs ++ bs) m ≡ collect bs (collect xs m)
unfolding collect
collect-append [] bs m = refl
collect-append (kv ∷ xs) bs m =
    collect-append xs bs (insert kv.key (values_at kv.key m ++ kv.value ∷ []) m)

-- What a decoder gives for values written one after the other.
pub record IsJson (host : Host) : Type 0 where
  pub decode-appended : (kvs : List KeyValue) → host.decode (appended host "" kvs) ≡ (kvs, false)

-- The output of a reduce task: one value for each of these keys.
unfoldable pub reduced :
    (String → List String → String) → List KeyValue → List String → List KeyValue
unfolding values_of
reduced f kvs [] = []
reduced f kvs (k ∷ keys) = record { key = k; value = f k (values_of k kvs) } ∷ reduced f kvs keys

module _ (host : Host) (laws : IsHost host) (json : IsJson host) (job_name : String) where
  read_all-collect :
      (streams : ℕ → List KeyValue) (r m n : ℕ) (files : Files) (kvs : Dict String (List String))
      → ((t : ℕ)
          → m ≤ t
          → t < m + n
          → lookup (reduce_name host job_name t r) files ≡ some (appended host "" (streams t)))
      → read_all host job_name r m n files kvs ≡ done (collect (all_streams streams m n) kvs)
  unfolding read_all all_streams collect
  read_all-collect streams r m zero files kvs h = refl
  read_all-collect streams r m (suc n) files kvs h =
      let e = h m (omega arith) (omega arith) in
      let d = json.decode-appended (streams m) in
      let ih =
        read_all-collect streams r (m + 1) n files (collect (streams m) kvs)
          (λ t a b. h t (omega arith) (omega arith)) in
      rw (e, d)
        (ih ∙ ap done (sym (collect-append (streams m) (all_streams streams (m + 1) n) kvs)))

  append_to-lookup :
      (name text old : String) (files : Files)
      → lookup name files ≡ some old
      → lookup name (append_to name text files) ≡ some (concat old text)
  unfolding append_to
  append_to-lookup name text old files h =
      rw (h) (lookup-insert name name (concat old text) files ∙ rw (eq_refl name) refl)

  emit-lookup :
      (out_file : String) (f : String → List String → String) (stream : List KeyValue)
      (sorted : List String) (old : String) (files : Files)
      → lookup out_file files ≡ some old
      → (files' : Files) × (emit host out_file
            (λ k vs. done (f k vs))
            (collect stream [])
            sorted
            files
          ≡ done files')
        × (lookup out_file files' ≡ some (appended host old (reduced f stream sorted)))
  unfolding emit reduced appended lookup
  emit-lookup out_file f stream [] old files h = (files, refl, h)
  emit-lookup out_file f stream (k ∷ sorted) old files h =
      let v : values_at k (collect stream []) ≡ values_of k stream =
        values_at-collect k stream [] in
      let text = host.encode (record { key = k; value = f k (values_of k stream) }) in
      let (files', e, l) =
        emit-lookup out_file f stream sorted (concat old text) (append_to out_file text files)
          (append_to-lookup out_file text old files h) in
      (files', rw v e, l)

  -- Where files can be created and a decoder gives back the values that were written, a reduce task
  -- whose reduce function has no error ends if the file of each map task for it holds a stream
  -- of values; its output file then holds, for each key of the streams in sorted order, the
  -- reduction of all its values, in the order of the map tasks.
  pub do_reduce_groups :
      (streams : ℕ → List KeyValue) (r n_map : ℕ) (out_file : String)
      (f : String → List String → String) (files : Files)
      → ((t : ℕ)
          → t < n_map
          → lookup (reduce_name host job_name t r) files ≡ some (appended host "" (streams t)))
      → (files' : Files) × (do_reduce host job_name r out_file n_map (λ k vs. done (f k vs)) files
          ≡ done files')
        × (lookup out_file files'
            ≡ some (
                appended host "" (
                  reduced f
                    (all_streams streams 0 n_map)
                    (host.sort_strings (keys_of [] (all_streams streams 0 n_map))))))
  unfolding do_reduce create lookup
  do_reduce_groups streams r n_map out_file f files h =
      let all = all_streams streams 0 n_map in
      let e = read_all-collect streams r 0 n_map files [] (λ t a b. h t (omega arith)) in
      let k = keys-collect all [] in
      let l = lookup-insert out_file out_file "" files ∙ rw (eq_refl out_file) refl in
      let (files', e', l') =
        emit-lookup out_file f all (host.sort_strings (keys_of [] all)) ""
          (insert out_file "" files) l in
      (files', rw (e, laws.creates out_file, k) e', l')
