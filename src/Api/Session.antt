-- ===== src/Api/Session.antt =====
-- The functions of web/src/api that make requests, one after the other: those that end in apiFetch, and login,
-- fetchMe and logout, which set the token, and downloadArchive and adminExportSystemConfig.
use omni_store.Common.{Option, List, [], ◌∷◌}
use omni_store.Texts.{Text}
use omni_store.Api.Client.{Response, FetchCall, Client}
use omni_store.Api.Calls.{Endpoint, run_endpoint}
use omni_store.Api.Account.{login, fetch_me, logout}
use omni_store.Api.Downloads.{download_archive, admin_export_system_config}

pub data ApiRequest : Type 0 where
  by_api_fetch : Endpoint → ApiRequest
  sign_in : Text → Text → ApiRequest
  own_user sign_out config_export : ApiRequest
  archive_of : Text → List Text → ApiRequest

module _ {W : Type 0} (fetch : FetchCall → W → W × Option Response) where
  unfoldable pub perform : ApiRequest → Client W → Client W
  unfolding run_endpoint login fetch_me logout download_archive admin_export_system_config
  perform (by_api_fetch e) c = (run_endpoint fetch e c).0
  perform (sign_in username password) c = (login fetch username password c).0
  perform own_user c = (fetch_me fetch c).0
  perform sign_out c = (logout fetch c).0
  perform config_export c = (admin_export_system_config fetch c).0
  perform (archive_of source_key paths) c = (download_archive fetch source_key paths c).0

  unfoldable pub run_all : List ApiRequest → Client W → Client W
  unfolding perform
  run_all [] c = c
  run_all (r ∷ rs) c = run_all rs (perform r c)
