-- ===== src/Files.antt =====
-- The browser's `File`, as far as the client reads it, and the text of paths.
use omni_store.Texts.{Text}
use omni_store.Common.{ℕ, [], ◌∷◌, map, ◌==◌, if◌then◌else◌}

-- `file_id` tells two `File` objects apart. An absent `webkitRelativePath` reads as the empty text:
-- the client only tests whether it is falsy.
pub record File : Type 0 where
  pub file_id : ℕ
  pub name : Text
  pub webkit_relative_path : Text
  pub size : ℕ

-- `replaceAll('\\', '/')`.
unfoldable pub forward_slashes : Text → Text
forward_slashes s = map (λ c. if c == 92 then b'/' else c) s

-- `webkitRelativePath || file.name`.
unfoldable pub path_or_name : Text → Text → Text
path_or_name [] name = name
path_or_name (c ∷ s) name = c ∷ s

-- uploadRelativePath of utils/uploadTask.ts, which is also uploadPath of utils/dropFiles.ts.
unfoldable pub upload_relative_path : File → Text
unfolding forward_slashes path_or_name
upload_relative_path file = forward_slashes (path_or_name file.webkit_relative_path file.name)
