-- ===== src/FileManager/Selection.antt =====
-- What deleting and dragging in web/src/pages/FileManager.tsx come to, for every server.
use omni_store.Common.{
  ◌+◌, Bool, true, false, ◌&&◌, ◌||◌, not, Option, none, some, List, ◌++◌, map, length, any, keep,
  reverse, if_split, ◌≡◌, refl, ap, arith, All,
}
use omni_store.Texts.{Text}
use omni_store.FilePaths.{join_path}
use omni_store.FileManager.Defs.{
  FileEntry, FileClipboardOperation, FileClipboardItem, Request, Reply, BatchDeleteTaskSnapshot,
  FileManagerView, has_name, is_directory, is_supported,
}
use omni_store.FileManager.Batch.{run_batch-BatchDone}
use omni_store.FileManager.Actions.{
  running_file_task, selected_entries, paste_request, delete_request, delete_entries,
  delete_selected_entries, is_empty, delete_runs, clipboard_item, is_nested,
}
use omni_store.FileManager.Laws.{failing, batch-failed, status-left, status_of, TaskShown}

module _ {W : Type 0} (server : Request → W → W × Reply) (v : FileManagerView W) where
  -- The entries whose deletion fails.
  abbrev pub not_deleted : List FileEntry
  not_deleted =
      failing server (delete_request v.source_key v.current_path) (selected_entries v) v.world

  pub record DeleteOver (t : BatchDeleteTaskSnapshot) : Type 0 where
    pub status : t.status ≡ status_of not_deleted
    pub total : t.total ≡ length (selected_entries v)
    pub counted : t.completed + t.failed ≡ t.total
    pub failed : t.failed ≡ length not_deleted
    pub errors : length t.errors ≡ t.failed

  abbrev pub DeleteShown : Option BatchDeleteTaskSnapshot → Type 0
  DeleteShown none = ⊥
  DeleteShown (some t) = DeleteOver t

  pub record Deleted (v' : FileManagerView W) : Type 0 where
    pub sent :
        v'.sent
        ≡ reverse (map (delete_request v.source_key v.current_path) (selected_entries v)) ++ v.sent
    pub selection : v'.selected_names ≡ map (λ e. e.name) not_deleted
    pub task : DeleteShown v'.batch_delete_task

  -- Whether a deletion is refused: the source is read-only, nothing is selected, or another one runs.
  abbrev pub delete_refused : Bool
  delete_refused =
      not v.can_write || is_empty (selected_entries v) || delete_runs v.batch_delete_task

  abbrev pub DeleteOutcome : Bool → FileManagerView W → Type 0
  DeleteOutcome true v' = v' ≡ v
  DeleteOutcome false v' = Deleted v'

  delete_entries-Deleted : Deleted (delete_entries server (selected_entries v) v)
  unfolding delete_entries failing
  delete_entries-Deleted =
      let request = delete_request v.source_key v.current_path in
      let b =
        run_batch-BatchDone server request (λ e. e.name) "移入回收站失败" (selected_entries v) v.world
          v.sent in
      let f =
        batch-failed server request (λ e. e.name) "移入回收站失败" (selected_entries v) v.world v.sent in
      record {
        sent = b.requested;
        selection = ap (map (λ e. e.name)) b.failed_items;
        task = record {
          status = status-left not_deleted _ f;
          total = refl;
          counted = b.counted;
          failed = f;
          errors = b.errors;
        };
      }

  delete_outcome :
      (b : Bool) → delete_refused ≡ b → DeleteOutcome b (delete_selected_entries server v)
  unfolding delete_selected_entries
  delete_outcome true h = ground (arith, h)
  delete_outcome false h =
      if_split Deleted delete_refused (λ no. absurd (ground (arith, h, no)))
        (λ yes. delete_entries-Deleted)

  -- A deletion that is refused changes nothing; any other makes one request for each selected entry, in
  -- order, leaves exactly the entries selected whose request failed, and counts each entry once.
  pub delete_selected_entries-DeleteOutcome :
      DeleteOutcome delete_refused (delete_selected_entries server v)
  delete_selected_entries-DeleteOutcome = delete_outcome delete_refused refl

module _ {W : Type 0} (server : Request → W → W × Reply) (directory : FileEntry) (names : List Text)
    (v : FileManagerView W) where
  -- What is dragged, where to, and the items whose request fails.
  abbrev pub dragged : List FileClipboardItem
  dragged =
      map (clipboard_item v) (keep (λ e. has_name names e.name && is_supported e.type) v.entries)

  abbrev pub destination : Text
  destination = join_path v.current_path directory.name

  abbrev pub move_request : FileClipboardItem → Request
  move_request = paste_request FileClipboardOperation.cut v.source_key destination

  abbrev pub not_moved : List FileClipboardItem
  not_moved = failing server move_request dragged v.world

  pub record Moved (v' : FileManagerView W) : Type 0 where
    pub apart : All (λ i. is_nested destination i ≡ false) dragged
    pub sent : v'.sent ≡ reverse (map move_request dragged) ++ v.sent
    pub selection : v'.selected_names ≡ map (λ i. i.name) not_moved
    pub task : TaskShown dragged not_moved v'.paste_task
    pub clipboard : v'.clipboard ≡ v.clipboard

  abbrev pub drop_refused : Bool
  drop_refused =
      (not v.can_write || not (is_directory directory.type) || running_file_task v)
      || (is_empty dragged || any (is_nested destination) dragged)

  abbrev pub DropOutcome : Bool → FileManagerView W → Type 0
  DropOutcome true v' = v' ≡ v
  DropOutcome false v' = Moved v'
