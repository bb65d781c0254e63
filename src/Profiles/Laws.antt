-- ===== src/Profiles/Laws.antt =====
-- What the charging profile receiver reports to the eMSP, over the in-memory store.
use ocpi_mock_hub.Prelude.{
  String, ◌≡◌, refl, ◌∙◌, ap, some, [], ◌∷◌, Bool, true, false, ◌==ₛ◌, lookup-put, lookup-without,
  eq_refl,
}
use ocpi_mock_hub.Json.{Json, str, obj, field, end, Bytes, no_bytes, doc, is_nil, unmarshal}
use ocpi_mock_hub.Response.{Outcome, Push}
use ocpi_mock_hub.MemoryStore.{
  MemoryStore, put_charging_profile, get_charging_profile, delete_charging_profile, get_session,
  or_nil,
}
use ocpi_mock_hub.MemoryStore.Instance.{memory_store}
use ocpi_mock_hub.Profiles.{
  SetProfile, read_set_profile, trivial_profile, or_trivial, active_result, profile_callback,
  with_session, store_profile, put_profile, report_profile, get_profile, clear_profile,
  delete_profile,
}

-- the one request that reports a profile
abbrev pub report : String → String → String → Json → Push
report now url token j = record {
  method = "POST";
  url = url;
  token = token;
  body = obj (
      field "result" (str "ACCEPTED") (
        field "profile" (obj (field "start_date_time" (str now) (field "charging_profile" j end)))
          end));
}

module _ (parses : String → Bool) (id now url : String) (m : MemoryStore)
    (known : is_nil (get_session id m) ≡ false) (named : (url ==ₛ "") ≡ false)
    (valid : parses url ≡ true) where
  runs :
      (run : MemoryStore → Outcome MemoryStore) (m' : MemoryStore)
      → get_session id m' ≡ get_session id m
      → with_session memory_store parses url id run m' ≡ run m'
  unfolding with_session
  runs run m' same = rw (named, same, known) refl

  get-put_profile : (b : Bytes) → get_charging_profile id (put_charging_profile id b m) ≡ b
  unfolding get_charging_profile put_charging_profile
  get-put_profile b = ap or_nil (lookup-put id id b m.charging_profiles) ∙ rw (eq_refl id) refl

  get-delete_profile :
      (m' : MemoryStore) → get_charging_profile id (delete_charging_profile id m') ≡ no_bytes
  unfolding get_charging_profile delete_charging_profile
  get-delete_profile m' =
      ap or_nil (lookup-without id id m'.charging_profiles) ∙ rw (eq_refl id) refl

  delete-state :
      (m' : MemoryStore) (j : Json)
      → get_session id m' ≡ get_session id m
      → get_charging_profile id m' ≡ doc j
      → (delete_profile memory_store parses url id m').state ≡ delete_charging_profile id m'
  unfolding delete_profile clear_profile
  delete-state m' j same stored =
      ap (λ o. o.state) (runs (clear_profile memory_store parses url id) m' same) ∙ rw stored refl

  put-state :
      (body : Bytes) (p : SetProfile)
      → unmarshal read_set_profile body ≡ some p
      → (p.response_url ==ₛ "") ≡ false
      → (put_profile memory_store parses id (some body) m).state
        ≡ put_charging_profile id p.charging_profile m
  unfolding put_profile with_session store_profile
  put-state body p decoded addressed = rw (put_profile, decoded, addressed, known) refl

  report-pushes :
      (m' : MemoryStore) (b : Bytes) (j : Json)
      → get_session id m' ≡ get_session id m
      → m'.emsp_own_token ≡ m.emsp_own_token
      → get_charging_profile id m' ≡ b
      → or_trivial b ≡ doc j
      → (get_profile memory_store parses now url id m').pushes
        ≡ report now url m.emsp_own_token j ∷ []
  unfolding get_profile report_profile profile_callback active_result
  report-pushes m' b j same token stored shown =
      ap (λ o. o.pushes) (runs (report_profile memory_store parses now url id) m' same)
      ∙ rw (stored, shown, named, valid, token) refl

  -- For a known session and addresses that are not empty, the GET's one valid: the profile that a
  -- SET stored is what a GET then reports to its own address, in one request with the eMSP's token,
  -- and after a CLEAR the trivial profile is reported instead.
  pub put_profile-reported :
      (body : Bytes) (p : SetProfile) (j : Json)
      → unmarshal read_set_profile body ≡ some p
      → (p.response_url ==ₛ "") ≡ false
      → p.charging_profile ≡ doc j
      → let m' = (put_profile memory_store parses id (some body) m).state in
        ((get_profile memory_store parses now url id m').pushes
          ≡ report now url m.emsp_own_token j ∷ [])
        × ((get_profile memory_store parses now url id
              (delete_profile memory_store parses url id m').state).pushes
            ≡ report now url m.emsp_own_token trivial_profile ∷ [])
  unfolding put_charging_profile delete_charging_profile get_session
  put_profile-reported body p j decoded addressed given =
      let m' = put_charging_profile id p.charging_profile m in
      let stored = get-put_profile p.charging_profile in
      rw (put-state body p decoded addressed) (
        report-pushes m' (doc j) j refl refl (stored ∙ given) refl,
        rw (delete-state m' j refl (stored ∙ given)) (
            report-pushes (delete_charging_profile id m') no_bytes trivial_profile refl refl
              (get-delete_profile m') refl),
      )
