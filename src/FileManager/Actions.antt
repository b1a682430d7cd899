-- ===== src/FileManager/Actions.antt =====
-- The actions of web/src/pages/FileManager.tsx on the entries of the current directory.
use omni_store.Common.{
  ℕ, Bool, true, false, ◌&&◌, ◌||◌, not, Option, none, some, List, [], ◌∷◌, ◌++◌, map, length, any,
  every, keep, ltb, if◌then◌else◌,
}
use omni_store.Texts.{Text, slash, text_eq, starts_with}
use omni_store.FilePaths.{normalize_path, join_path, parent_path, is_path_inside}
use omni_store.FileManager.Defs.{
  FileEntry, FileClipboardOperation, FileClipboardItem, FileClipboard, Request, copy_file,
  move_file, delete_file, Reply, TaskStatus, PasteTaskSnapshot, BatchDeleteTaskSnapshot,
  FileManagerView, is_running, is_supported, is_directory, has_name, copy_to_clipboard,
  cut_to_clipboard, clear_clipboard,
}
use omni_store.FileManager.Batch.{Progress, no_progress, run_batch}

-- Why pasting is not possible: the messages of getPasteDisabledReason, the last two with the name of
-- the item, and those of a task that is running.
pub data PasteReason : Type 0 where
  clipboard_empty read_only busy : PasteReason
  same_directory inside_itself : Text → PasteReason

unfoldable pub check_items : Text → Text → List FileClipboardItem → Option PasteReason
check_items source_key target [] = none
check_items source_key target (item ∷ items) =
    let rest = check_items source_key target items in
    if not (text_eq item.source_key source_key)
    then rest
    else if text_eq target (parent_path item.path)
    then some (same_directory item.name)
    else if item.is_dir && is_path_inside target item.path
    then some (inside_itself item.name)
    else rest

abbrev pub reason_when : Bool → Bool → Option PasteReason → Option PasteReason
reason_when empty writable rest =
    if empty then some clipboard_empty else if not writable then some read_only else rest

abbrev pub is_empty {ℓ} : {A : Type ℓ} → List A → Bool
is_empty [] = true
is_empty (x ∷ xs) = false

abbrev pub is_none {ℓ} : {A : Type ℓ} → Option A → Bool
is_none none = true
is_none (some a) = false

unfoldable pub get_paste_disabled_reason :
    List FileClipboardItem → Option FileClipboardOperation → Text → Text → Bool → Option PasteReason
unfolding check_items
get_paste_disabled_reason items operation target_source_key target_path can_write =
    reason_when (is_none operation || is_empty items) can_write
      (check_items target_source_key (normalize_path target_path) items)

abbrev pub task_runs : Option PasteTaskSnapshot → Bool
task_runs none = false
task_runs (some t) = is_running t.status

abbrev pub delete_runs : Option BatchDeleteTaskSnapshot → Bool
delete_runs none = false
delete_runs (some t) = is_running t.status

abbrev pub final_status : ℕ → TaskStatus
final_status failed =
    if ltb 0 failed then TaskStatus.completed_with_errors else TaskStatus.completed

abbrev pub entry_path : Text → Text → Text
entry_path current name =
    if text_eq current (slash ∷ []) then slash ∷ name else current ++ (slash ∷ name)

module _ {W : Type 0} where
  -- Whether `runningFileTask` is not ''.
  unfoldable pub running_file_task : FileManagerView W → Bool
  running_file_task v =
      v.upload_running
      || (task_runs v.paste_task || (delete_runs v.batch_delete_task || v.archive_downloading))

  unfoldable pub selectable_entries : FileManagerView W → List FileEntry
  selectable_entries v = keep (λ e. is_supported e.type) v.entries

  unfoldable pub selected_entries : FileManagerView W → List FileEntry
  selected_entries v = keep (λ e. has_name v.selected_names e.name && is_supported e.type) v.entries

  unfoldable pub all_visible_selected : FileManagerView W → Bool
  unfolding selectable_entries
  all_visible_selected v =
      not (is_empty (selectable_entries v))
      && every (λ e. has_name v.selected_names e.name) (selectable_entries v)

  unfoldable pub paste_disabled_reason : FileManagerView W → Option PasteReason
  unfolding get_paste_disabled_reason running_file_task
  paste_disabled_reason v =
      if running_file_task v
      then some busy
      else get_paste_disabled_reason v.clipboard.items v.clipboard.operation v.source_key
          v.current_path v.can_write

  unfoldable pub toggle_selected : Text → Bool → FileManagerView W → FileManagerView W
  toggle_selected name selected v = record v {
    selected_names =
        if selected
        then (if has_name v.selected_names name then v.selected_names else name ∷ v.selected_names)
        else keep (λ n. not (text_eq n name)) v.selected_names;
  }

  unfoldable pub toggle_each : Bool → List FileEntry → FileManagerView W → FileManagerView W
  unfolding toggle_selected
  toggle_each selected [] v = v
  toggle_each selected (e ∷ es) v = toggle_each selected es (toggle_selected e.name selected v)

  unfoldable pub toggle_all_selected : Bool → FileManagerView W → FileManagerView W
  unfolding toggle_each selectable_entries
  toggle_all_selected selected v = toggle_each selected (selectable_entries v) v

  unfoldable pub clipboard_item : FileManagerView W → FileEntry → FileClipboardItem
  clipboard_item v entry = record {
    id = v.source_key ++ (b':' ∷ entry_path v.current_path entry.name);
    source_key = v.source_key;
    source_name = v.source_name;
    path = entry_path v.current_path entry.name;
    name = entry.name;
    is_dir = is_directory entry.type;
  }

  abbrev pub items_of : FileManagerView W → List FileEntry → List FileClipboardItem
  items_of v es = map (clipboard_item v) (keep (λ e. is_supported e.type) es)

  unfoldable pub copy_entries : List FileEntry → FileManagerView W → FileManagerView W
  copy_entries es v =
      if is_empty (items_of v es)
      then v
      else record v { clipboard = copy_to_clipboard (items_of v es); selected_names = [] }

  unfoldable pub cut_entries : List FileEntry → FileManagerView W → FileManagerView W
  cut_entries es v =
      if is_empty (items_of v es)
      then v
      else record v { clipboard = cut_to_clipboard (items_of v es); selected_names = [] }

-- `targetPath === item.path || targetPath.startsWith(`${item.path}/`)`.
abbrev pub is_nested : Text → FileClipboardItem → Bool
is_nested target item = text_eq target item.path || starts_with target (item.path ++ (slash ∷ []))

abbrev pub delete_request : Text → Text → FileEntry → Request
delete_request key current entry = delete_file key (join_path current entry.name)

abbrev pub paste_request : FileClipboardOperation → Text → Text → FileClipboardItem → Request
paste_request FileClipboardOperation.copy key target item =
    copy_file item.source_key item.path key (join_path target item.name)
paste_request FileClipboardOperation.cut key target item =
    move_file item.source_key item.path key (join_path target item.name)

-- The clipboard behind a paste.
abbrev pub clipboard_after :
    FileClipboardOperation → Progress FileClipboardItem → FileClipboard → FileClipboard
clipboard_after FileClipboardOperation.cut p old =
    if ltb 0 p.failed then cut_to_clipboard p.failed_items else clear_clipboard
clipboard_after FileClipboardOperation.copy p old =
    if ltb 0 p.failed then copy_to_clipboard p.failed_items else old

module _ {W : Type 0} (server : Request → W → W × Reply) where
  -- The loop of pasteClipboard and what follows it. The tasks that are shown on the way are replaced
  -- by the last one.
  unfoldable pub paste_items :
      FileClipboardOperation → List FileClipboardItem → FileManagerView W → FileManagerView W
  unfolding run_batch
  paste_items operation items v =
      let (p, w, sent) =
        run_batch server (paste_request operation v.source_key v.current_path) (λ i. i.name) "粘贴失败"
          items no_progress v.world v.sent in
      record v {
        paste_task = some (record {
          status = final_status p.failed;
          operation = operation;
          is_drag = false;
          total = length items;
          completed = p.completed;
          failed = p.failed;
          current = [];
          target_path = v.current_path;
          errors = p.errors;
        });
        refreshed = (v.source_key ∷ map (λ i. i.source_key) items) ∷ v.refreshed;
        clipboard = clipboard_after operation p v.clipboard;
        sent = sent;
        world = w;
      }

  abbrev pub paste_when : Option FileClipboardOperation → FileManagerView W → FileManagerView W
  paste_when none v = v
  paste_when (some operation) v =
      if is_empty v.clipboard.items
        || (not (is_none (paste_disabled_reason v)) || task_runs v.paste_task)
      then v
      else paste_items operation v.clipboard.items v

  unfoldable pub paste_clipboard : FileManagerView W → FileManagerView W
  unfolding paste_items
  paste_clipboard v = paste_when v.clipboard.operation v

  -- The loop of dropEntriesOnDirectory, and what follows it.
  unfoldable pub move_items : Text → List FileClipboardItem → FileManagerView W → FileManagerView W
  unfolding run_batch
  move_items target items v =
      let (p, w, sent) =
        run_batch server (paste_request FileClipboardOperation.cut v.source_key target)
          (λ i. i.name) "移动失败" items no_progress v.world v.sent in
      record v {
        selected_names = map (λ i. i.name) p.failed_items;
        refreshed = (v.source_key ∷ []) ∷ v.refreshed;
        paste_task = some (record {
          status = final_status p.failed;
          operation = FileClipboardOperation.cut;
          is_drag = true;
          total = length items;
          completed = p.completed;
          failed = p.failed;
          current = [];
          target_path = target;
          errors = p.errors;
        });
        sent = sent;
        world = w;
      }

  abbrev pub drop_when : Text → List FileClipboardItem → FileManagerView W → FileManagerView W
  drop_when target items v =
      if is_empty items || any (is_nested target) items then v else move_items target items v

  -- `names` are the names that the drag carries.
  unfoldable pub drop_entries_on_directory :
      FileEntry → List Text → FileManagerView W → FileManagerView W
  unfolding move_items
  drop_entries_on_directory directory names v =
      if not v.can_write || not (is_directory directory.type) || running_file_task v
      then v
      else drop_when (join_path v.current_path directory.name)
          (map (clipboard_item v)
            (keep (λ e. has_name names e.name && is_supported e.type) v.entries))
          v

  unfoldable pub delete_entries : List FileEntry → FileManagerView W → FileManagerView W
  unfolding run_batch
  delete_entries targets v =
      let (p, w, sent) =
        run_batch server (delete_request v.source_key v.current_path) (λ e. e.name) "移入回收站失败"
          targets no_progress v.world v.sent in
      record v {
        selected_names = map (λ e. e.name) p.failed_items;
        refreshed = (v.source_key ∷ []) ∷ v.refreshed;
        batch_delete_task = some (record {
          status = final_status p.failed;
          total = length targets;
          completed = p.completed;
          failed = p.failed;
          current = [];
          errors = p.errors;
        });
        sent = sent;
        world = w;
      }

  unfoldable pub delete_selected_entries : FileManagerView W → FileManagerView W
  unfolding delete_entries selected_entries
  delete_selected_entries v =
      if not v.can_write || is_empty (selected_entries v) || delete_runs v.batch_delete_task
      then v
      else delete_entries (selected_entries v) v
