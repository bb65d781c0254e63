-- ===== src/Preferences/Accepted.antt =====
-- What PutChargingPreferences stores where it accepts preferences.
use ocpi_mock_hub.Prelude.{
  if_cases, not, is_some, ◌&&◌, ◌||◌, to_upper, ◌≢◌, arith, eq_iff, String, ◌≡◌, refl, ◌∙◌, ap,
  Option, some, true, false, ◌==ₛ◌, if◌then◌else◌, lookup-put, eq_refl,
}
use ocpi_mock_hub.Json.{string_or_empty, str, obj, Fields, Bytes, doc, get, unmarshal}
use ocpi_mock_hub.Json.Members.{get-put}
use ocpi_mock_hub.Response.{Outcome, Data, value, Reply, panicked, respond, ok, reply_with}
use ocpi_mock_hub.MemoryStore.{MemoryStore, put_session, get_session, or_nil}
use ocpi_mock_hub.MemoryStore.Instance.{memory_store}
use ocpi_mock_hub.Seed.{Seed}
use ocpi_mock_hub.Sessions.Laws.{HasFields}
use ocpi_mock_hub.Preferences.{
  evse_supports_preferences, ChargingPreferences, read_preferences, preferences_json, profile_of,
  is_supported, obstacle, with_preferences, store_preferences, put_checked, put_body,
  put_charging_preferences,
}

module _ (seed : Option Seed) (id : String) (p : ChargingPreferences) (session : Fields) where
  checked :
      (m : MemoryStore)
      → (profile_of p ==ₛ "") ≡ false
      → is_supported (profile_of p) ≡ true
      → (obstacle seed session p ==ₛ "") ≡ true
      → put_checked memory_store seed id p session m
        ≡ reply_with
            (put_session id (doc (obj (with_preferences p session))) m)
            (ok (str "ACCEPTED"))
  unfolding put_checked store_preferences
  checked m named known free = rw (named, known, free) refl

  -- Preferences of a supported profile type, for an object that is stored and against which no
  -- check speaks, are accepted: the stored object has them, with the type in the enum's spelling,
  -- as its charging_preferences, and all its other members as before.
  put_charging_preferences-stores :
      (body : Bytes) (m : MemoryStore)
      → unmarshal read_preferences body ≡ some p
      → HasFields id session m
      → (profile_of p ==ₛ "") ≡ false
      → is_supported (profile_of p) ≡ true
      → (obstacle seed session p ==ₛ "") ≡ true
      → let o = put_charging_preferences memory_store seed id (some body) m in
        (fs : Fields) × HasFields id fs o.state
        × (o.reply ≡ respond (ok (str "ACCEPTED")))
        × ((j : String)
            → get j fs ≡ (
                if "charging_preferences" ==ₛ j
                then some (preferences_json (record p { profile_type = profile_of p }))
                else get j session))
  unfolding put_charging_preferences put_body with_preferences put_session get_session
  put_charging_preferences-stores body m decoded h named known free =
      let fs = with_preferences p session in
      rw (h, put_body, decoded, h, checked m named known free)
        (
          fs,
          ap or_nil (lookup-put id id (doc (obj fs)) m.sessions) ∙ rw (eq_refl id) refl,
          refl,
          λ j. get-put "charging_preferences" j _ session,
        )

-- the text that a reply has as its data
unfoldable pub answer : Data → String
answer (value (str t)) = t
answer _ = ""

unfoldable pub said : Reply → String
unfolding answer
said (respond r) = answer r.payload
said panicked = ""

-- an answer of an obstacle that a check can meet
abbrev IsRefusal : String → Type 0
IsRefusal t = t ≢ "ACCEPTED"

obstacle-IsRefusal :
    (seed : Option Seed) (session : Fields) (p : ChargingPreferences)
    → IsRefusal (obstacle seed session p)
unfolding obstacle
obstacle-IsRefusal seed session p =
    if_cases {A = String} IsRefusal
      (not (to_upper (string_or_empty (get "status" session)) ==ₛ "ACTIVE"))
      (λ e h. ground (arith, h, eq_iff "NOT_POSSIBLE" "ACCEPTED"))
      (λ e.
        if_cases {A = String} IsRefusal (not (evse_supports_preferences session seed))
          (λ e h. ground (arith, h, eq_iff "NOT_POSSIBLE" "ACCEPTED"))
          (λ e.
            if_cases {A = String} IsRefusal
              (((profile_of p ==ₛ "CHEAP") || (profile_of p ==ₛ "GREEN"))
                && (p.departure_time ==ₛ ""))
              (λ e h. ground (arith, h, eq_iff "DEPARTURE_REQUIRED" "ACCEPTED"))
              (λ e.
                if_cases {A = String} IsRefusal
                  ((profile_of p ==ₛ "CHEAP") && not (is_some p.energy_need))
                  (λ e h. ground (arith, h, eq_iff "ENERGY_NEED_REQUIRED" "ACCEPTED"))
                  (λ e h. ground (arith, h, eq_iff "" "ACCEPTED")))))

module _ (seed : Option Seed) (id : String) (p : ChargingPreferences) (session : Fields)
    (m : MemoryStore) where
  -- The outcome stores the preferences, if it accepts them.
  abbrev IsStoring : Outcome MemoryStore → Type 0
  IsStoring o =
      said o.reply ≡ "ACCEPTED"
      → o.state ≡ put_session id (doc (obj (with_preferences p session))) m

  put_checked-IsStoring : IsStoring (put_checked memory_store seed id p session m)
  unfolding put_checked store_preferences said answer
  put_checked-IsStoring =
      if_cases {A = Outcome MemoryStore} IsStoring (profile_of p ==ₛ "")
        (λ e h. absurd (ground (arith, h, eq_iff "" "ACCEPTED")))
        (λ e.
          if_cases {A = Outcome MemoryStore} IsStoring (not (is_supported (profile_of p)))
            (λ e h. absurd (ground (arith, h, eq_iff "PROFILE_TYPE_NOT_SUPPORTED" "ACCEPTED")))
            (λ e.
              if_cases {A = Outcome MemoryStore} IsStoring (not (obstacle seed session p ==ₛ ""))
                (λ e h. absurd (obstacle-IsRefusal seed session p h)) (λ e h. refl)))

  pub put_charging_preferences-IsStoring :
      (body : Bytes)
      → unmarshal read_preferences body ≡ some p
      → HasFields id session m
      → IsStoring (put_charging_preferences memory_store seed id (some body) m)
  unfolding put_charging_preferences put_body get_session
  put_charging_preferences-IsStoring body decoded there =
      rw (there, put_body, decoded, there) put_checked-IsStoring
