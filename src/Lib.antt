-- ===== src/Lib.antt =====
-- The web client of OmniStore (web/src): its own logic, as definitions that run and theorems about them.
--
-- How the parts work together: the page of a storage source (web/src/pages/FileManager.tsx) shows the
-- entries of a directory, runs batches of requests over them and starts uploads, which a task object
-- (web/src/utils/uploadTask.ts) carries out; the paths that both send come from
-- web/src/utils/filePaths.ts; the theme of the page is kept by web/src/utils/themeMode.ts.
--
-- UploadTask and its children model UploadTaskController of web/src/utils/uploadTask.ts: the pool of
-- workers, the conflict decision, cancellation and retry. The class is cut at its awaits; each
-- stretch of code is one function and `step` interleaves them (UploadTask.Steps). What the uploader, the
-- dialog and the clock answer comes in as events, in any order; there is no fuel, since every stretch of
-- code between two awaits is a plain function.
--
-- FilePaths models web/src/utils/filePaths.ts: normalizePath, joinPath, parentPath and isPathInside are
-- normalize_path, join_path, parent_path and is_path_inside.
--
-- ThemeMode models web/src/utils/themeMode.ts: createThemeStore with its dependencies as functions on a
-- world W, and createBrowserThemeStore as the instance on a storage and a document. An optional method
-- that is missing is `none`; storage that throws is a case of Storage. Listeners are known by number.
--
-- FileManager models the actions of web/src/pages/FileManager.tsx on the entries of a directory: Defs the
-- data and what the actions read and write (FileManagerView), Batch the loop over the items of a batch
-- (pasteClipboard, dropEntriesOnDirectory, deleteSelectedEntries), Actions the functions themselves. The
-- server is a parameter: a function of the request and a state of its own. A loop runs to its end before
-- another action, the task is the one shown at its end, and the messages of toasts are left out. Uploads has
-- startUpload and the handlers of a drop, which start a task of UploadTask over the files of DropFiles: what
-- they read of the page after an await is the closure of their call. Directories has chooseDirectory and
-- readDirectoryFiles. Pages has the pager. Navigation has the
-- handlers that change the address and the preferences, and the segments of
-- web/src/components/files/Breadcrumb.tsx.
--
-- Preview.Content models fetchCapped of web/src/preview/content.ts: fetch_capped with its two loops read_chunks
-- and copy_chunks. What fetch and the reader of the body give is a Response; both loops go along the list
-- of chunks.
--
-- Preview.Blobs models fetchBlob of that file and the two components of web/src/preview/PreviewContent.tsx that keep
-- an object URL: preview_step is a render with the effect it leads to, the button to retry, the end of the
-- component, or the settling of the promise of a run. What fetch gives for a run is part of the run, and an
-- aborted fetch or read is rejected. Preview.Modal models the keys of web/src/preview/PreviewModal.tsx, and
-- FileManager.Previews what the file manager and the directory of a share open in it.
--
-- Preview.Resolver models web/src/preview/resolver.ts, with toLowerCase as a parameter.
--
-- Uri has what the requests are written with: Bytes UTF-8, Escape encodeURIComponent (`none` when it throws
-- a URIError), Query URLSearchParams, Target and Reading the path and query of a URL read again (the path
-- as it is sent, before a browser takes out segments of dots), Decimal numbers as text.
--
-- Api models web/src/api. Json holds the values that bodies are the text of, Client client.ts with
-- the token it keeps, Calls the monad of a request function (what it asks of the client, and what it
-- makes of the answer); Sources, Shares, Admin and Account the request functions, one for each of sources.ts,
-- shares.ts and public.ts, admin.ts, and of auth.ts, favorites.ts, imagebed.ts, preferences.ts,
-- recentFiles.ts, s3.ts and system.ts. The answer of fetch is a parameter. The modules named for Routes
-- and Urls say what each function sends, Session runs the functions one after the other, TokenLog is the log of
-- what such a run sends and is answered, and Tokens, Logout and Errors say what becomes of the token and of
-- errors.
--
-- DropFiles models web/src/utils/dropFiles.ts: Tree the entries and handles of the browser as trees whose
-- reading may fail, Collect the two walks, Sorting the order of the result, Outcome what a drop is to give. localeCompare is a parameter.
--
-- FilePreferences models web/src/utils/filePreferences.ts over the storage of the browser,
-- and Format models formatBytes of web/src/utils/format.ts, for sizes that a number holds exactly.
--
-- AnonymousUpload models web/src/pages/AnonymousUpload.tsx: Queue the items, the queue and the counter of
-- running uploads, with the events that change them, Links the links of an uploaded image, LinkReaders how HTML,
-- CommonMark and BBCode read them where they are pasted alone. updateItem takes
-- effect at once. What uploadAnonymousImage answers comes in as events, in any order.
--
-- Texts holds JavaScript strings as lists of UTF-16 code units with the methods the code calls, Files the
-- browser's File objects. Where the code only compares a string with literals it is a native String.
-- Common passes on the library and has the conditional, the tests on numbers and the lemmas on lists.
--
-- Not modelled: the Go server (cmd, internal), which the client reaches by HTTP only; the rendering of
-- pages and components (.tsx), the styles, the router; the rendering of previews (web/src/preview); the
-- declarations of the answers' fields in web/src/api; the dates of web/src/utils/format.ts and the labels
-- of web/src/utils/audit.ts.
pub mod Common
pub mod AnonymousUpload
pub mod Api
pub mod DropFiles
pub mod FileManager
pub mod FilePaths
pub mod FilePreferences
pub mod Files
pub mod Format
pub mod Preview
pub mod Texts
pub mod ThemeMode
pub mod UploadTask
pub mod Uri
