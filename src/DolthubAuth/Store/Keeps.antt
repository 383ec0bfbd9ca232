-- ===== src/DolthubAuth/Store/Keeps.antt =====
-- internal/dolthubauth/store.go: what the creation of a token keeps.
use wasteland.Base.{ℕ, String, ◌≡◌, refl, ◌||◌, Option, none, some, [], ◌∷◌, ◌++◌}
use wasteland.DolthubAuth.Types.{UserMetadata, ok, err, failed}
use wasteland.DolthubAuth.Tables.{TokenRow, Tables, Outside, insert_token, token_taken, reap}
use wasteland.DolthubAuth.Store.{
  Library, store_token, reap_expired_connect_tokens, create_connect_token,
}
use wasteland.DolthubAuth.Tables.Keeps.{if-keep}

module _ (lib : Library) (o : Outside) (P : Tables → Type 0) (token_mac : String) (now : ℕ)
    (reaped : (s : Tables) → P s → P (reap_expired_connect_tokens now s))
    (added : (row : TokenRow) (s : Tables)
      → row.connect_token_mac ≡ token_mac
      → P s
      → P (record s { connect_tokens = s.connect_tokens ++ row ∷ [] })) where
  store-keep :
      (s : Tables) (text : Option String) (row : String → TokenRow)
      → ((t : String) → (row t).connect_token_mac ≡ token_mac)
      → P s
      → P (store_token lib o s text row).1
  unfolding store_token
  store-keep s none row m p = p
  store-keep s (some text) row m p =
      if-keep P (o.fails insert_token || token_taken (row text) s)
        (err (failed "insert connect token"), s)
        (ok tt, record s { connect_tokens = s.connect_tokens ++ row text ∷ [] }) p
        (added (row text) s (m text) p)

  pub create-keep :
      (tenant environment secret_mac subject : String) (m : UserMetadata) (expires_at : ℕ)
      (s : Tables)
      → P s
      → P
          (create_connect_token lib o tenant environment token_mac secret_mac subject m expires_at
            now s).1
  unfolding create_connect_token
  create-keep tenant environment secret_mac subject m expires_at s p =
      if-keep P (o.fails reap) (err (failed "reap expired connect tokens"), s) _ p
        (store-keep (reap_expired_connect_tokens now s) (lib.marshal_metadata m) _ (λ _. refl)
          (reaped s p))
