-- ===== src/DataUse/IpUrl/Prefix.antt =====
-- `get_ip_url` cuts a url in front of the first "/group".
use distributed_storage.Base.{
  Bool-cases, inl, inr, ltb, ltb→lt, ltb→le, if◌then◌else◌, suc, ◌<◌, ◌≤◌, ◌≡◌, some, ◌++◌, ◌∷◌,
  length, drop, pos,
}
use distributed_storage.Clib.Exec.{done, fault}
use distributed_storage.Clib.Strings.{Bytes, IsText, codes, strstr}
use distributed_storage.Clib.First.{Absent, starts_with-append, strstr-first, strstr-Absent}
use distributed_storage.Clib.Put.{strncpy-null, put_text, put_text-fault}
use distributed_storage.DataUse.IpUrl.{get_ip_url}

abbrev pub group : Bytes
group = codes "/group"

module _ (host rest buf : Bytes) (text : IsText host)
    (first : Absent group (host ++ (group ++ rest)) (length host)) where
  found : strstr (host ++ (group ++ rest)) group ≡ done (some (length host))
  found =
      strstr-first host b'/' (codes "group" ++ rest) group text first
        (starts_with-append group rest)

  -- The part in front of the first "/group" is put into the array, with a byte 0 behind it.
  pub get_ip_url-host :
      length host < length buf
      → get_ip_url (some (host ++ (group ++ rest))) (some buf)
        ≡ done (pos 0, some (host ++ 0 ∷ drop (suc (length host)) buf))
  unfolding get_ip_url
  get_ip_url-host fits = rw (found, put_text host (group ++ rest) buf text fits)

  -- An array with no room for that part and its byte 0 is written past its end.
  pub get_ip_url-overflow :
      length buf ≤ length host → get_ip_url (some (host ++ (group ++ rest))) (some buf) ≡ fault
  unfolding get_ip_url
  get_ip_url-overflow over = rw (found, put_text-fault host (group ++ rest) buf text over)

-- The part in front of the first "/group" is put into the array, with a byte 0 behind it, if the array
-- has room for both; any smaller array is written past its end.
pub get_ip_url_bounds :
    (host rest buf : Bytes)
    → IsText host
    → Absent group (host ++ (group ++ rest)) (length host)
    → get_ip_url (some (host ++ (group ++ rest))) (some buf) ≡ (
        if ltb (length host) (length buf)
        then done (pos 0, some (host ++ 0 ∷ drop (suc (length host)) buf))
        else fault)
get_ip_url_bounds host rest buf text first = elim (Bool-cases (ltb (length host) (length buf))) [
  | inl fits ↦
      rw fits (get_ip_url-host host rest buf text first (ltb→lt (length host) (length buf) fits))
  | inr over ↦
      rw over
        (get_ip_url-overflow host rest buf text first (ltb→le (length host) (length buf) over))
]

-- A url with no "/group" gives "null".
pub get_ip_url-null :
    (t r buf : Bytes)
    → IsText t
    → Absent group (t ++ 0 ∷ r) (suc (length t))
    → 4 < length buf
    → get_ip_url (some (t ++ 0 ∷ r)) (some buf)
      ≡ done (pos 0, some (codes "null" ++ 0 ∷ drop 5 buf))
unfolding get_ip_url
get_ip_url-null t r buf text absent fits =
    rw (strstr-Absent t r group text absent, strncpy-null buf fits)
