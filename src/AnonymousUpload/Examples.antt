-- ===== src/AnonymousUpload/Examples.antt =====
-- Four images and a text file are added at once, and the first upload is answered.
use omni_store.Common.{ℕ, true, none, some, List, [], ◌∷◌, ◌++◌, map, ◌≡◌, refl}
use omni_store.Uri.Bytes.{codes}
use Prim.Native.String.{String}
use omni_store.AnonymousUpload.{
  UploadState, queued, uploading, success, error, ImageFile, UploadItem, AnonymousStatus,
  file_error,
}
use omni_store.AnonymousUpload.Queue.{
  uploaded, AnonymousUploads, no_uploads, QueueEvent, add, settles, finally, play,
}
use omni_store.AnonymousUpload.Shown.{UploadsOk, play-UploadsOk}
use omni_store.AnonymousUpload.Order.{sent, waiting, sent-waiting-accepted}
use omni_store.AnonymousUpload.LinkReaders.{LinksRead, read_markdown}
use omni_store.AnonymousUpload.LinkReading.{get_link_options-LinksRead}
use omni_store.AnonymousUpload.Links.{clean_alt_text, markdown_link, get_link_options}

abbrev picture : ℕ → String → ImageFile
picture n t = record {
  file = record {
    file_id = n;
    name = codes " a[\"1\"].png ";
    webkit_relative_path = [];
    size = 1000;
  };
  type = t;
}

abbrev status : AnonymousStatus
status = record { enabled = true; max_file_size_mb = 1 }

abbrev pictures : List ImageFile
pictures =
    picture 1 "image/png"
    ∷ picture 2 "text/plain"
    ∷ picture 3 "image/png"
    ∷ picture 4 "image/webp"
    ∷ picture 5 "image/gif"
    ∷ []

abbrev first_answered : List QueueEvent
first_answered = add status pictures ∷ settles 0 (uploaded (codes "/i/1.png")) ∷ []

abbrev states : AnonymousUploads → List UploadState
states s = map (λ item. item.state) s.items

-- The fourth image waits until the first upload is over.
four_pictures :
    (states (play no_uploads (add status pictures ∷ []))
      ≡ uploading ∷ error ∷ uploading ∷ uploading ∷ queued ∷ [])
    × (states (play no_uploads first_answered)
        ≡ success ∷ error ∷ uploading ∷ uploading ∷ queued ∷ [])
    × (states (play no_uploads (first_answered ++ (finally 0 ∷ [])))
        ≡ success ∷ error ∷ uploading ∷ uploading ∷ uploading ∷ [])
unfolding play
four_pictures = (refl, refl, refl)

play-UploadsOk_example : UploadsOk (play no_uploads first_answered)
play-UploadsOk_example = play-UploadsOk first_answered

sent-waiting-accepted_example :
    sent (play no_uploads first_answered) ++ waiting (play no_uploads first_answered)
    ≡ picture 1 "image/png"
      ∷ picture 3 "image/png"
      ∷ picture 4 "image/webp"
      ∷ picture 5 "image/gif"
      ∷ []
unfolding file_error
sent-waiting-accepted_example = sent-waiting-accepted first_answered

abbrev shown : UploadItem
shown = record {
  id = 0;
  file = picture 1 "image/png";
  state = success;
  url = some (codes "/i/1.png");
  error = none;
}

clean_name : clean_alt_text shown.file.file.name ≡ codes "a1.png"
unfolding clean_alt_text
clean_name = refl

-- A backslash at the end of a name escapes the bracket after it.
no_image : read_markdown (markdown_link (codes "a\\") (codes "/i/1.png")) ≡ none
unfolding markdown_link
no_image = refl

get_link_options-LinksRead_example :
    LinksRead (clean_alt_text shown.file.file.name) (codes "/i/1.png") (get_link_options shown)
unfolding clean_alt_text
get_link_options-LinksRead_example =
    get_link_options-LinksRead shown (codes "/i/1.png") refl (λ e. cc)
      (refl, (refl, (refl, (refl, (refl, (refl, (refl, (refl, tt))))))))
      (refl, (refl, (refl, (refl, (refl, (refl, tt))))))
