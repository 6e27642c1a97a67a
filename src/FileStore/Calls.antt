-- ===== src/FileStore/Calls.antt =====
-- The calls of a store, with the time and the acceptable states of each.
use kraken.Base.{some, ℕ, Bool, Option, List, [], ◌∷◌, Map}
use kraken.FileStore.Types.{Registry, Disk, Store}
use kraken.FileStore.Ops.{
  create_file, move_file_from, move_file, delete_file, get_file_stat, get_file_metadata,
  set_file_metadata, set_file_metadata_at, get_or_set_file_metadata, delete_file_metadata,
}

-- A store that was just made, over what is on disk.
unfoldable pub new_store : ℕ → Bool → Disk → Map (List ℕ) → Store
new_store capacity is_cas disk unmanaged = record {
  disk = disk;
  unmanaged = unmanaged;
  queue = [];
  capacity = capacity;
  is_cas = is_cas;
}

pub data Operation : Type 0 where
  creates : (target : ℕ) → Option ℕ → Operation
  moves_from : (target source : ℕ) → Operation
  moves : (target : ℕ) → Operation
  deletes stats : Operation
  gets deletes_metadata : (k : ℕ) → Operation
  sets gets_or_sets : (k : ℕ) → List ℕ → Operation
  sets_at : (k : ℕ) → List ℕ → (offset : ℕ) → Operation

pub record Call : Type 0 where
  pub now : ℕ
  pub name : ℕ
  pub states : List ℕ
  pub operation : Operation

module _ (r : Registry) where
  -- The store after a call. What `gets` reads is left out here: it depends on the type of the
  -- metadata, and the store does not depend on it.
  unfoldable pub operate : ℕ → ℕ → List ℕ → Operation → Store → Store
  unfolding create_file move_file_from move_file delete_file get_file_stat get_file_metadata
      set_file_metadata set_file_metadata_at get_or_set_file_metadata delete_file_metadata
  operate now n states (creates target size) s = (create_file r now n states target size s).0
  operate now n states (moves_from target source) s =
      (move_file_from r now n states target source s).0
  operate now n states (moves target) s = (move_file r now n states target s).0
  operate now n states deletes s = (delete_file r now n states s).0
  operate now n states stats s = (get_file_stat r now n states s).0
  operate now n states (gets k) s = (get_file_metadata r (λ b. some b) now n states k s).0
  operate now n states (deletes_metadata k) s = (delete_file_metadata r now n states k s).0
  operate now n states (sets k b) s = (set_file_metadata r now n states k b s).0
  operate now n states (gets_or_sets k b) s = (get_or_set_file_metadata r now n states k b s).0
  operate now n states (sets_at k b offset) s = (set_file_metadata_at r now n states k b offset s).0

  unfoldable pub step : Call → Store → Store
  unfolding operate
  step c s = operate c.now c.name c.states c.operation s

  unfoldable pub run : List Call → Store → Store
  unfolding step
  run [] s = s
  run (c ∷ cs) s = run cs (step c s)
