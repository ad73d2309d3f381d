-- ===== src/Catalog/Downloads.antt =====
-- catalog/downloads/downloads.service.ts: `DownloadsService`. The counter of downloads is that of
-- catalog/counters/counters.service.ts. The id of a new row is the next number; `get_download_url` is
-- the storage's. What a list shows of a product is left out.
use negare_api.Base.{ℕ, suc, List, ◌∷◌, Option, none, some, String, same, if◌then◌else◌, filter}
use negare_api.Base.Text.{Text}
use negare_api.Base.Integers.{pos}
use negare_api.Base.Exec.{Exec, Result, ok, throws, pure, lift, gets, modify, ◌>>=◌}
use negare_api.Catalog.Keyset.{Cursor, CursorCodec, Page, list_for_user}
use negare_api.Catalog.Counters.{CounterKind, CountersState, CountersFailure, bump}
use negare_api.Catalog.Likes.{to_big_int}

pub record Download : Type 0 where
  pub id : ℕ
  pub user_id : String
  pub product_id : ℕ
  pub created_at : ℕ
  pub bytes : Option ℕ
  pub price_paid : Option ℕ

pub record DownloadStart : Type 0 where
  pub bytes : Option ℕ
  pub price_paid : Option ℕ

-- A product has the key of its file in the storage, if there is a file with one.
pub record DownloadsState : Type 0 where
  pub downloads : List Download
  pub last_id : ℕ
  pub files : ℕ → Option (Option String)
  pub counts : CountersState

pub data DownloadsFailure : Type 0 where
  invalid_product_id : DownloadsFailure
  product_not_found : DownloadsFailure
  database_error : DownloadsFailure

abbrev pub Method : Type 0 → Type 0
Method A = Exec DownloadsState DownloadsFailure A

abbrev parsed : Option ℕ → Result DownloadsFailure ℕ
parsed none = throws invalid_product_id
parsed (some id) = ok id

abbrev found : Option (Option String) → Result DownloadsFailure (Option String)
found none = throws product_not_found
found (some file) = ok file

abbrev counted : Result CountersFailure (Unit {0}) → Result DownloadsFailure (Unit {0})
counted (ok u) = ok u
counted (throws e) = throws database_error

abbrev pub bump_downloads : (product_id : ℕ) → Method (Unit {0})
bump_downloads product_id st =
    let (res, counts) = bump product_id CounterKind.downloads (pos 1) st.counts in
    (counted res, record st { counts = counts })

abbrev pub create_download :
    (now : ℕ)
    → (user_id : String) → (product_id : ℕ) → DownloadStart
    → DownloadsState
    → DownloadsState
create_download now user_id product_id dto st =
    let id = suc st.last_id in
    record st {
      last_id = id;
      downloads =
          record {
            id = id;
            user_id = user_id;
            product_id = product_id;
            created_at = now;
            bytes = dto.bytes;
            price_paid = dto.price_paid;
          }
          ∷ st.downloads;
    }

module _ (get_download_url : String → String) where
  -- An empty key is no key.
  abbrev pub url_of : Option String → Option String
  url_of none = none
  url_of (some k) = if same k "" then none else some (get_download_url k)

  unfoldable pub start_download :
      (now : ℕ)
      → (user_id : String) → (product_id_str : Text) → DownloadStart
      → Method (Option String)
  start_download now user_id product_id_str dto = do
    product_id ← lift (parsed (to_big_int product_id_str))
    stored ← gets (λ st. st.files product_id)
    file ← lift (found stored)
    _ ← bump_downloads product_id
    _ ← modify (create_download now user_id product_id dto)
    pure (url_of file)

abbrev pub download_cursor : Download → Cursor
download_cursor d = record { created_at = d.created_at; number = d.id }

unfoldable pub list_downloads :
    CursorCodec
    → (user_id : String) → (limit : Option ℕ) → (cursor : Option String) → DownloadsState
    → Page Download
list_downloads codec user_id limit cursor st =
    list_for_user codec download_cursor limit cursor
      (filter (λ d. same user_id d.user_id) st.downloads)
