-- ===== src/Manager/StateFile/Repeats.antt =====
-- How `load_state` of src/container_manager.cpp gives two containers one identifier.
use mathlib.Core.Path.{subst}
use mini_container.Prelude.{
  ℕ, ◌+◌, ◌<◌, ◌^◌, ◌≡◌, refl, sym, ap, ◌∙◌, true, false, List, [], ◌∷◌, ◌++◌, arith, pos,
  is_negative,
}
use mini_container.Text.{Text, text_eq_iff, is_empty}
use mini_container.Kernel.{Kernel}
use mini_container.Config.{ContainerInfo}
use mini_container.Manager.Table.{Sys, extract_numeric_id, max_numeric_id, next_id}
use mini_container.Manager.Table.Ids.{extract_numeric_id-next_id}
use mini_container.Manager.Table.Lookup.{info_of, DistinctIds}
use mini_container.Manager.Lifecycle.Frame.{added}
use mini_container.Manager.StateText.{Loader}
use mini_container.Manager.StateFile.{check_alive, finish_container, loaded_id, loaded_info}
use mini_container.Manager.StateFile.Live.{finish_container-adds, add_loaded-added}

twice :
    (cs : List ContainerInfo) (a b : ContainerInfo)
    → b.id ≡ a.id
    → ¬ DistinctIds ((cs ++ (a ∷ [])) ++ (b ∷ []))
unfolding info_of
twice [] a b e (new, d) = ground (arith, new, (text_eq_iff b.id a.id).1 e)
twice (c ∷ cs) a b e (new, d) = twice cs a b e d

loaded_id-word :
    (cs : List ContainerInfo) (id : Text)
    → is_negative (extract_numeric_id id) ≡ true
    → loaded_id cs id ≡ next_id cs
unfolding loaded_id
loaded_id-word cs id e = rw (loaded_id, e) refl

loaded_id-number :
    (cs : List ContainerInfo) (id : Text) (n : ℕ)
    → extract_numeric_id id ≡ pos n
    → loaded_id cs id ≡ id
unfolding loaded_id
loaded_id-number cs id n e = rw (loaded_id, e) refl

check_alive-created :
    (K : Kernel) (l : Loader) (w : K.World) → l.state ≡ pos 0 → check_alive K l w ≡ (l, w)
unfolding check_alive
check_alive-created K l w e = rw (check_alive, e) refl

module _ (K : Kernel) (allocates : (w : K.World) → (K.alloc w).0 ≡ true) where
  -- A container that was read as CREATED is added.
  finish_container-created :
      (l : Loader) (s : Sys K)
      → l.state ≡ pos 0
      → is_empty l.container_id ≡ false
      → (finish_container K (l, s)).1.manager ≡ added s.manager (loaded_info s.manager.containers l)
  finish_container-created l s e named =
      ap (λ r. r.1.manager)
        (finish_container-adds K allocates l l s s.world (check_alive-created K l s.world e) named
          (rw e refl) (rw e refl))
      ∙ (add_loaded-added K allocates l s).1

  -- Where memory is given, and the greatest number in the table is below the greatest `int`: let
  -- `load_state` come to the end of a container that was read as CREATED, with an identifier that
  -- is no number and not empty, and then to the end of another, read as CREATED too, whose
  -- identifier is the number that was the next free one of the table. Then two containers have that
  -- identifier.
  pub finish_container-repeats :
      (l l' : Loader) (s : Sys K) (m : ℕ)
      → l.state ≡ pos 0
      → l'.state ≡ pos 0
      → is_empty l.container_id ≡ false
      → is_empty l'.container_id ≡ false
      → is_negative (extract_numeric_id l.container_id) ≡ true
      → max_numeric_id (pos 0) s.manager.containers ≡ pos m
      → m + 1 < 2 ^ 31
      → l'.container_id ≡ next_id s.manager.containers
      → ¬ DistinctIds (finish_container K (l', (finish_container K (l, s)).1)).1.manager.containers
  finish_container-repeats l l' s m e e' named named' wordy greatest below next =
      let cs = s.manager.containers in
      let s' = (finish_container K (l, s)).1 in
      let info = loaded_info cs l in
      let first : s'.manager.containers ≡ cs ++ (info ∷ []) =
        ap (λ n. n.containers) (finish_container-created l s e named) in
      let second = ap (λ n. n.containers) (finish_container-created l' s' e' named') in
      let same : loaded_id s'.manager.containers l'.container_id ≡ loaded_id cs l.container_id =
        loaded_id-number s'.manager.containers l'.container_id (m + 1)
          (ap extract_numeric_id next ∙ extract_numeric_id-next_id cs m greatest below)
        ∙ next
        ∙ sym (loaded_id-word cs l.container_id wordy) in
      let info' = loaded_info s'.manager.containers l' in
      subst (λ xs. ¬ DistinctIds xs) (sym (second ∙ ap (λ xs. xs ++ (info' ∷ [])) first))
        (twice cs info info' same)
