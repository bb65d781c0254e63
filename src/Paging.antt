-- ===== src/Paging.antt =====
-- Paging and the date filters (ocpiutil/response.go), and the paging of the handlers
-- (handlers/ocpi_headers.go). A Link header is kept as the parts of its URL.
pub mod Bounds
pub mod Walk
pub mod Window
use ocpi_mock_hub.Prelude.{
  ℕ, ◌+◌, ◌-◌, String, Option, none, some, List, [], ◌∷◌, Bool, true, false, ◌&&◌, ◌==ₛ◌, leb, ltb,
  if◌then◌else◌, ℤ, pos, negsuc, atoi, to_upper, length, take, drop, or_else, not, is_some, ◌||◌,
}
use ocpi_mock_hub.Json.{Bytes, unmarshal, read_string, Fields}

pub record Paging : Type 0 where
  pub offset : ℕ
  pub limit : ℕ

-- the int is negative
abbrev clamp_negative : ℤ → ℕ
clamp_negative (pos n) = n
clamp_negative (negsuc n) = 0

-- ParsePaging, on the ints that Atoi makes of ?offset= and ?limit=
unfoldable pub paging_of : ℤ → ℤ → ℕ → Paging
paging_of offset limit default_limit =
    let asked = clamp_negative limit in
    let limit' = if leb asked 0 then default_limit else asked in
    record { offset = clamp_negative offset; limit = if ltb 250 limit' then 250 else limit' }

unfoldable pub parse_paging : String → String → ℕ → Paging
unfolding paging_of atoi
parse_paging offset limit default_limit = paging_of (atoi offset) (atoi limit) default_limit

-- Handler.parsePaging: the store's mode forces pages of one item
unfoldable pub forced_paging : String → Paging → Paging
forced_paging mode p = if mode ==ₛ "pagination-stress" then record p { limit = 1 } else p

-- PaginateSlice; nil and the empty slice are both []
unfoldable pub paginate_slice {ℓ} : {A : Type ℓ} → List A → Paging → List A
paginate_slice items p =
    if leb (length items) p.offset
    then []
    else (let end = p.offset + p.limit in
        let stop = if ltb (length items) end then length items else end in
        take (stop - p.offset) (drop p.offset items))

-- What BuildPagingHeaders reads of the request.
pub record RequestOrigin : Type 0 where
  pub is_tls : Bool
  pub forwarded_proto : String
  pub rally_forwarded_host : String
  pub forwarded_host : String
  pub host : String

pub record NextLink : Type 0 where
  pub scheme : String
  pub host : String
  pub offset : ℕ
  pub limit : ℕ

pub record PagingHeaders : Type 0 where
  pub total_count : ℕ
  pub limit : ℕ
  pub link : Option NextLink

unfoldable pub link_scheme : RequestOrigin → String
link_scheme r =
    if r.is_tls then "https" else if r.forwarded_proto ==ₛ "" then "http" else r.forwarded_proto

unfoldable pub link_host : RequestOrigin → String
link_host r =
    if not (r.rally_forwarded_host ==ₛ "")
    then r.rally_forwarded_host
    else if not (r.forwarded_host ==ₛ "")
    then r.forwarded_host
    else r.host

unfoldable pub build_paging_headers : RequestOrigin → Paging → ℕ → ℕ → PagingHeaders
unfolding link_scheme link_host
build_paging_headers r p returned total = record {
  total_count = total;
  limit = p.limit;
  link =
      if leb p.limit returned && ltb (p.offset + returned) total
      then some (record {
        scheme = link_scheme r;
        host = link_host r;
        offset = p.offset + p.limit;
        limit = p.limit;
      })
      else none;
}

-- The end of every list handler (GetSessions, GetCDRs, GetTokens, GetLocations, GetTariffs,
-- GetHubClientInfo): parsePaging, PaginateSlice and BuildPagingHeaders on the filtered items, in the
-- order in which the store lists them for this request.
unfoldable pub page_at {ℓ} : {A : Type ℓ} → RequestOrigin → Paging → List A → List A × PagingHeaders
page_at r p items =
    let page = paginate_slice items p in
    (page, build_paging_headers r p (length page) (length items))

unfoldable pub list_page {ℓ} :
    {A : Type ℓ} → RequestOrigin → String → ℤ → ℤ → List A → List A × PagingHeaders
unfolding page_at
list_page r mode offset limit items =
    page_at r (forced_paging mode (paging_of offset limit 50)) items

-- time.Parse(time.RFC3339, s), to nanoseconds since the year 1, and Format. The package time is a
-- parameter: a formatted instant parses back to itself without its fraction of a second.
pub record Clock : Type 0 where
  pub parse : String → Option ℕ
  pub format : ℕ → String

-- ParseDateRange: a bound that is missing or does not parse is nil
unfoldable pub parse_date : Clock → String → Option ℕ
parse_date clock v = if v ==ₛ "" then none else clock.parse v

abbrev at_or_after : Option ℕ → ℕ → Bool
at_or_after none t = true
at_or_after (some from) t = not (ltb t from)

abbrev is_before : Option ℕ → ℕ → Bool
is_before none t = true
is_before (some to) t = ltb t to

-- the body of the filters' loops, on a last_updated that parses or not
abbrev pub in_window : Option ℕ → Option ℕ → Option ℕ → Bool
in_window from to none = false
in_window from to (some t) = at_or_after from t && is_before to t

module _ {ℓ} {A : Type ℓ} where
  keep_in_window : (A → Option ℕ) → Option ℕ → Option ℕ → List A → List A
  keep_in_window stamp from to [] = []
  keep_in_window stamp from to (x ∷ xs) =
      let rest = keep_in_window stamp from to xs in
      if in_window from to (stamp x) then x ∷ rest else rest

  -- FilterByLastUpdated, on the parsed last_updated of each item
  unfoldable pub filter_by_last_updated : (A → Option ℕ) → Option ℕ → Option ℕ → List A → List A
  unfolding keep_in_window
  filter_by_last_updated stamp from to items =
      if is_some from || is_some to then keep_in_window stamp from to items else items

-- the instant of a raw record, `none` where it does not unmarshal or its last_updated does not parse
unfoldable pub raw_stamp : Clock → Bytes → Option ℕ
raw_stamp clock b = elim (unmarshal (read_string "last_updated") b) [
  | none ↦ none
  | some v ↦ clock.parse v
]

unfoldable pub filter_raw_by_last_updated : Clock → Option ℕ → Option ℕ → List Bytes → List Bytes
unfolding filter_by_last_updated raw_stamp
filter_raw_by_last_updated clock from to items =
    filter_by_last_updated (raw_stamp clock) from to items
