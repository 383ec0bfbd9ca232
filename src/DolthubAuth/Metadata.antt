-- ===== src/DolthubAuth/Metadata.antt =====
-- internal/dolthubauth: the metadata of the connections that are stored.
use wasteland.Base.{
  if◌then◌else◌, All, ℕ, String, ◌≡◌, Bool, true, false, none, some, List, [], ◌∷◌, ◌++◌,
}
use wasteland.DolthubAuth.Types.{WastelandConfig, UserMetadata, ok, Connection, merged_with}
use wasteland.DolthubAuth.Validation.{validate_metadata}
use wasteland.DolthubAuth.Validation.Merged.{merged_with-valid}
use wasteland.DolthubAuth.Tables.{Tables, ConnectionRow, Outside, find_row, change_rows, of_subject}
use wasteland.DolthubAuth.Store.{
  Library, is_of, decode_wastelands, scan_connection_row, reap_expired_connect_tokens,
}
use wasteland.DolthubAuth.Store.Keeps.{create-keep}
use wasteland.DolthubAuth.Store.Decoded.{scan-metadata, decode-stored, IsJson}
use wasteland.DolthubAuth.Redeem.{mark, audited, seal_row, new_row}
use wasteland.DolthubAuth.Redeem.Keeps.{redeem-keep}
use wasteland.DolthubAuth.Patch.{patch_row}
use wasteland.DolthubAuth.Patch.Keeps.{patch-keep}
use wasteland.DolthubAuth.Patch.Nonces.{use-others}
use wasteland.DolthubAuth.Service.{Config, Crypto}
use wasteland.DolthubAuth.Requests.{Decoders}
use wasteland.DolthubAuth.Run.{Route, AllKeep, serve-keep, Run, begin, request}

module _ {A : Type 0} (P : A → Type 0) where
  All-append : (xs ys : List A) → All P xs → All P ys → All P (xs ++ ys)
  All-append [] ys h k = k
  All-append (x ∷ xs) ys h k = (h.0, All-append xs ys h.1 k)

  All-find_row : (p : A → Bool) (x : A) (xs : List A) → All P xs → find_row p xs ≡ some x → P x
  unfolding find_row
  All-find_row p x [] h e = cc
  All-find_row p x (y ∷ ys) h e = first (p y) e (All-find_row p x ys h.1)
    where
      first :
          (b : Bool)
          → (if b then some y else find_row p ys) ≡ some x
          → (find_row p ys ≡ some x → P x)
          → P x
      first true e ih = let same : y ≡ x = cc e in rw (← same) h.0
      first false e ih = ih e

  All-change_rows :
      (q : A → Bool) (f : A → A)
      → ((x : A) → P x → P (f x))
      → (xs : List A) → All P xs
      → All P (change_rows q f xs)
  unfolding change_rows
  All-change_rows q f k [] h = tt
  All-change_rows q f k (x ∷ xs) h = (either (q x), All-change_rows q f k xs h.1)
    where
      either : (b : Bool) → P (if b then f x else x)
      either true = k x h.0
      either false = h.0

module _ (lib : Library) where
  -- The row reads as valid metadata.
  abbrev pub IsGood : ConnectionRow → Type 0
  IsGood row =
      (wastelands : List WastelandConfig) × (decode_wastelands lib row.wastelands ≡ ok wastelands)
      × (validate_metadata (record { rig_handle = row.rig_handle; wastelands = wastelands }) ≡ none)

  abbrev pub IsValid : Tables → Type 0
  IsValid s = All IsGood s.connections

  scan-valid :
      (row : ConnectionRow) (c : Connection)
      → IsGood row
      → scan_connection_row lib row ≡ ok c
      → validate_metadata c.metadata ≡ none
  scan-valid row c (wastelands, decoded, valid) h =
      let (read, decoded', same) = scan-metadata lib row c h in
      let one : wastelands ≡ read = cc (decoded, decoded') in rw same (rw (← one) valid)

module _ (lib : Library) (json : IsJson lib) where
  encoded-good :
      (m : UserMetadata) (text : String)
      → lib.marshal_wastelands m.wastelands ≡ some text
      → validate_metadata m ≡ none
      → (wastelands : List WastelandConfig) × (decode_wastelands lib (lib.jsonb text)
          ≡ ok wastelands)
        × (validate_metadata (record { rig_handle = m.rig_handle; wastelands = wastelands }) ≡ none)
  encoded-good m text e valid = (m.wastelands, decode-stored lib json m.wastelands text e, valid)

  module _ (crypto : Crypto) (decode : Decoders) (cfg : Config) where
    IsValid-StoreKeeps :
        (o : Outside) (now : ℕ)
        → AllKeep lib (decode.mac_sha256 cfg.token_pepper) o now (IsValid lib)
    unfolding reap_expired_connect_tokens mark audited seal_row new_row patch_row
    IsValid-StoreKeeps o now = record {
      nonce = use-others (IsValid lib) (λ _ _ h. h) o now;
      create = λ tenant environment token secret_mac subject m expires_at e s h.
          create-keep lib o (IsValid lib) (decode.mac_sha256 cfg.token_pepper token) now (λ _ h. h)
            (λ _ _ _ h. h) tenant environment secret_mac subject m expires_at s h;
      redeem = λ input may valid.
          redeem-keep lib o input (IsValid lib) (λ c. validate_metadata c.metadata ≡ none)
            (record {
              known = λ subject row c s h found scan.
                  scan-valid lib row c
                    (All-find_row (IsGood lib)
                      (of_subject input.tenant_id input.environment subject) row s.connections h
                      found)
                    scan;
              new = λ k wastelands sealed s e h _.
                  All-append (IsGood lib) s.connections _ h
                    (encoded-good input.metadata wastelands e valid, tt);
              renew = λ k c wastelands sealed s good e h.
                  All-change_rows (IsGood lib) (is_of k) _
                    (λ row _.
                      encoded-good (merged_with c.metadata input.metadata) wastelands e
                        (merged_with-valid c.metadata input.metadata good valid))
                    s.connections h;
              used = λ _ h. h;
              log = λ _ _ _ h. h;
            });
      patch = λ k expected change s may.
          patch-keep (IsValid lib) lib o k now
            (λ m wastelands s valid e h.
              All-change_rows (IsGood lib) (is_of k) _ (λ row _. encoded-good m wastelands e valid)
                s.connections h)
            expected change s;
    }

    module _ {Q : Route → Outside → Type 0} {s : Tables} {t : ℕ} (start : IsValid lib s) where
      -- Every connection that is stored reads as metadata that `validate_metadata` accepts: a handle
      -- that is a slug once the spaces around it are cut, which are stored with it, at least one
      -- wasteland, and accepted settings of each; after any requests, whatever fails in the database,
      -- if it was so before them.
      pub Run-IsValid :
          {s' : Tables} {t' : ℕ} → Run lib crypto decode cfg Q s t s' t' → IsValid lib s'
      Run-IsValid begin = start
      Run-IsValid (request {s'} run route o now r later other) =
          serve-keep lib crypto decode cfg o now (IsValid lib) (IsValid-StoreKeeps o now) route r s'
            (Run-IsValid run)
