-- ===== src/MapReduce/Names.antt =====
-- mapreduce/common.go: the names of the intermediate files.
use Prim.Native.String.append
use Prim.Native.String.{String, [], ◌∷◌, ◌++◌}
use distribution_system.Prelude.{ℕ, ◌≡◌, sym, ◌∙◌, true}
use distribution_system.MapReduce.Host.{Host, reduce_name}

-- Two numbers have two texts, and every file can be created.
pub record IsHost (host : Host) : Type 0 where
  pub itoa_injective : (m n : ℕ) → host.itoa m ≡ host.itoa n → m ≡ n
  pub creates : (name : String) → host.can_create name ≡ true

++_cancel : (s t u : String) → (s ++ t) ≡ (s ++ u) → t ≡ u
++_cancel [] t u h = sym (append.nil t) ∙ h ∙ append.nil u
++_cancel (c ∷ s) t u h =
    let e : (c ∷ (s ++ t)) ≡ (c ∷ (s ++ u)) = sym (append.cons c s t) ∙ h ∙ append.cons c s u in
    ++_cancel s t u (cc)

module _ (host : Host) (laws : IsHost host) where
  pub reduce_name_injective :
      (job_name : String) (map_task i j : ℕ)
      → reduce_name host job_name map_task i ≡ reduce_name host job_name map_task j
      → i ≡ j
  unfolding reduce_name
  reduce_name_injective job_name map_task i j h = laws.itoa_injective i j (
      ++_cancel "-" (host.itoa i) (host.itoa j) (
        ++_cancel (host.itoa map_task) ("-" ++ host.itoa i) ("-" ++ host.itoa j) (
          ++_cancel "-" (host.itoa map_task ++ "-" ++ host.itoa i)
            (host.itoa map_task ++ "-" ++ host.itoa j)
            (++_cancel job_name ("-" ++ host.itoa map_task ++ "-" ++ host.itoa i)
              ("-" ++ host.itoa map_task ++ "-" ++ host.itoa j)
              (++_cancel "mrtmp." (job_name ++ "-" ++ host.itoa map_task ++ "-" ++ host.itoa i)
                (job_name ++ "-" ++ host.itoa map_task ++ "-" ++ host.itoa j) h)))))
