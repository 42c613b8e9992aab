-- ===== src/Manager/Restart.antt =====
-- The end of the program and its next start: the table that the state file carries over.
use mathlib.Core.Path.{subst}
use mini_container.Prelude.{
  ◌≡◌, refl, sym, ap, ◌∙◌, true, List, [], ◌∷◌, Option, none, some, Bool-cases, inl, inr, arith,
  All, if◌then◌else◌,
}
use mini_container.Text.{Text, text, text_eq, text_eq_iff}
use mini_container.Kernel.{Kernel}
use mini_container.Config.{ContainerInfo, ContainerManager}
use mini_container.Manager.Table.{Sys}
use mini_container.Manager.Table.Lookup.{info_of, DistinctIds}
use mini_container.Manager.StateText.Stored.{IsStored}
use mini_container.Manager.StateFile.{state_file_path, save_state, load_state}
use mini_container.Manager.StateFile.Keeping.{load_state-Holds}
use mini_container.Manager.StateFile.Live.{is_live, without_config, live_one, live_ones, HasProcess}
use mini_container.Manager.StateFile.RoundTrip.{load_state-save_state}
use mini_container.Manager.Runs.Initial.{Fits, Fits-IsKept}
use mini_container.Manager.Validity.{IsValid}
use mini_container.Manager.Spec.{view}

-- What is carried over of a container.
unfoldable pub carried : Option ContainerInfo → Option ContainerInfo
carried none = none
carried (some c) = if is_live c.state then some (without_config c) else none

info_of-live_ones :
    (cs : List ContainerInfo) (id : Text)
    → DistinctIds cs
    → info_of (live_ones cs) id ≡ carried (info_of cs id)
unfolding live_ones live_one info_of carried
info_of-live_ones [] id d = refl
info_of-live_ones (c ∷ cs) id (new, d) = elim (Bool-cases (text_eq c.id id)) [
  | inl same ↦
      let gone = ap (info_of cs) (sym ((text_eq_iff c.id id).0 same)) ∙ new in
      ground (arith, gone, info_of-live_ones cs id d)
  | inr other ↦ ground (arith, info_of-live_ones cs id d)
]

DistinctIds-live_ones : (cs : List ContainerInfo) → DistinctIds cs → DistinctIds (live_ones cs)
unfolding live_ones live_one carried
DistinctIds-live_ones [] d = tt
DistinctIds-live_ones (c ∷ cs) (new, d) =
    ground (arith, DistinctIds-live_ones cs d, info_of-live_ones cs c.id d, new)

module _ (K : Kernel) (allocates : (w : K.World) → (K.alloc w).0 ≡ true)
    (there : (w : K.World) → K.stat (text "/var/run/mini-container") w ≡ true)
    (kept : (t : Text) (w : K.World)
      → (K.read_text state_file_path (K.write_text state_file_path t w).1).0 ≡ some t) where
  -- Where memory is given, the directory of the state file is there and a file that is written
  -- holds what was written: when a valid table of containers that the state file can hold, the
  -- processes of the RUNNING ones being there, is saved and loaded into an empty table whose array
  -- has room for one, the new table is valid too. Under each identifier it has the container that
  -- was CREATED or RUNNING there, without its configuration, and nothing else.
  pub load_state-IsValid :
      (s : Sys K) (m : ContainerManager)
      → All IsStored s.manager.containers
      → All (HasProcess K) s.manager.containers
      → IsValid s.manager
      → m.containers ≡ []
      → Fits m
      → let n = (load_state K (record { manager = m; world = (save_state K s).world })).1.manager in
        IsValid n × ((id : Text) → view n id ≡ carried (view s.manager id))
  load_state-IsValid s m hs alive v empty fits =
      let s' : Sys K = record { manager = m; world = (save_state K s).world } in
      let loaded = (load_state-save_state K allocates there kept s m hs alive empty).1 in
      let (fit, room) = load_state-Holds K Fits Fits-IsKept s' fits in
      (
        record {
          distinct =
              subst DistinctIds (sym loaded)
                (DistinctIds-live_ones s.manager.containers v.distinct);
          fits = fit;
          room = room;
        },
        λ id.
            ap (λ cs. info_of cs id) loaded ∙ info_of-live_ones s.manager.containers id v.distinct,
      )
