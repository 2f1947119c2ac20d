-- ===== src/RedisOp/Values/Stored.antt =====
-- `rop_set_string` and `rop_get_string` against a server that keeps texts by their keys.
use distributed_storage.Base.{
  suc, ◌≡◌, none, some, Option, Bool-cases, inl, inr, ◌∷◌, [], ◌++◌, length, drop, ltb, ltb→lt,
  ltb→le, if◌then◌else◌, pos, minus_one, ℤ,
}
use distributed_storage.Clib.Exec.{Exec, done, fault}
use distributed_storage.Clib.Put.{put_text, put_text-fault}
use distributed_storage.Clib.Strings.{Bytes, IsText, codes, equal}
use distributed_storage.RedisOp.Hiredis.{Hiredis, Reply, ReplyType, text}
use distributed_storage.RedisOp.Keys.{cmd, rop_test_reply_type}
use distributed_storage.RedisOp.Values.{rop_get_string, rop_set_string}

-- What Redis documents of SET and GET: the text is kept under the key, and no other key's text changes; GET
-- replies with the text, or with the type for no value, and changes nothing.
pub record TextLaws (H : Hiredis) (conn : H.Context) : Type 0 where
  pub texts : H.World → Bytes → Option Bytes
  pub set :
      (key value : Bytes) (w : H.World)
      → (reply : Reply) × (u : H.World) × (H.command conn
            (cmd (codes "SET %s %s") (text key ∷ text value ∷ []))
            w
          ≡ (some reply, u))
        × (reply.str ≡ some (codes "OK"))
        × ((k : Bytes) → texts u k ≡ (if equal k key then some value else texts w k))
  pub get_some :
      (key value : Bytes) (w : H.World)
      → texts w key ≡ some value
      → (reply : Reply) × (H.command conn (cmd (codes "GET %s") (text key ∷ [])) w
          ≡ (some reply, w))
        × (reply.type ≡ ReplyType.string)
        × (reply.str ≡ some value)
  pub get_none :
      (key : Bytes) (w : H.World)
      → texts w key ≡ none
      → (reply : Reply) × (H.command conn (cmd (codes "GET %s") (text key ∷ [])) w
          ≡ (some reply, w))
        × (reply.type ≡ ReplyType.nil)

-- What `rop_get_string` makes of the text under a key: it is copied with a byte 0 behind it where the array has
-- room, and past its end otherwise.
abbrev pub got : {W : Type 0} → Option Bytes → Bytes → W → Exec ((ℤ × Bytes) × W)
got none array w = done ((minus_one, array), w)
got (some value) array w =
    if ltb (length value) (length array)
    then done ((pos 1, value ++ 0 ∷ drop (suc (length value)) array), w)
    else fault

abbrev pub IsKept : Option Bytes → Type 0
IsKept none = Unit
IsKept (some value) = IsText value

module _ (H : Hiredis) (conn : H.Context) (laws : TextLaws H conn) where
  rop_get_string-got :
      (key array : Bytes) (kept : Option Bytes) (w : H.World)
      → laws.texts w key ≡ kept
      → IsKept kept
      → rop_get_string H conn key array w ≡ got kept array w
  unfolding rop_get_string rop_test_reply_type
  rop_get_string-got key array none w same is_text =
      let (reply, run, type) = laws.get_none key w same in rw (run, type)
  rop_get_string-got key array (some value) w same is_text =
      let (reply, run, type, str) = laws.get_some key value w same in
      elim (Bool-cases (ltb (length value) (length array))) [
        | inl fits ↦ rw (
          run,
          type,
          str,
          put_text value (0 ∷ []) array is_text (ltb→lt (length value) (length array) fits),
          fits,
        )
        | inr long ↦ rw (
          run,
          type,
          str,
          put_text-fault value (0 ∷ []) array is_text (ltb→le (length value) (length array) long),
          long,
        )
      ]

  -- rop_set_string returns 1, and behind it rop_get_string of a key returns 1 and the text that
  -- was set, if it is the same key, and otherwise what the server has for the key: 1 and its text,
  -- or -1 and an unchanged array where it has none. A text that has no room in the array with a
  -- byte 0 is written past its end. The texts hold no byte 0, and the server keeps a text under
  -- its key and tells it as Redis documents SET and GET.
  pub rop_get_string-rop_set_string :
      (key value other array : Bytes) (w : H.World)
      → IsText value
      → IsKept (laws.texts w other)
      → (u : H.World) × (rop_set_string H conn key value w ≡ done (pos 1, u))
        × (rop_get_string H conn other array u ≡ (
            if equal other key then got (some value) array u else got (laws.texts w other) array u))
  unfolding rop_set_string equal
  rop_get_string-rop_set_string key value other array w is_text is_kept =
      let (reply, u, run, str, stored) = laws.set key value w in
      (
        u,
        rw (run, str),
        elim (Bool-cases (equal other key)) [
          | inl same ↦
              rw same
                (rop_get_string-got other array (some value) u (rw same at (stored other)) is_text)
          | inr apart ↦ rw apart (
              rop_get_string-got other array (laws.texts w other) u (rw apart at (stored other))
                is_kept)
        ],
      )
