-- ===== src/DataUse/Listing.antt =====
-- `read_redis_to_json` and `increase_file_pv` of src/data_use.c. The library cJSON is an interface;
-- `malloc` is given as the rows that it returns, NULL as no row.
pub mod Picture
pub mod Item
pub mod Sized
use distributed_storage.Base.{
  ℕ, zero, suc, Option, none, some, List, [], ◌∷◌, ◌++◌, ℤ, pos, minus_one, ◌+ℤ◌, ◌-ℤ◌, ltb_ℤ,
  sub_ℕ, pos_part, neg_part, ◌*◌, if◌then◌else◌,
}
use distributed_storage.Clib.Chars.{int_of}
use distributed_storage.Clib.Exec as Exec
use distributed_storage.Clib.Exec.{Exec, done, fault, exits, nonnull}
use distributed_storage.Clib.Print.{sprintf}
use distributed_storage.Clib.Strings.{Bytes, codes, cstring, zeros, strcat, strcpy, text_of}
use distributed_storage.DataUse.Fields.{get_value_by_redis}
use distributed_storage.DataUse.IpUrl.{get_ip_url}
use distributed_storage.RedisOp.Action.{Action, ◌>>=◌, ◌>>◌, return, lift}
use distributed_storage.RedisOp.Connect.{rop_connectdb_nopwd, rop_disconnect}
use distributed_storage.RedisOp.Hiredis.{Hiredis}
use distributed_storage.RedisOp.Values.{
  rop_range_list, rop_zset_get_score, rop_zset_increment, values_id_size,
}
use distributed_storage.Usefull.Suffix.{get_file_suffix}

-- `n * k`
abbrev pub times : ℤ → ℕ → ℤ
times n k = sub_ℕ (pos_part n * k) (neg_part n * k)

-- What the program calls of cJSON.
pub record CJson : Type 1 where
  pub Json : Type 0
  pub create_object : Json
  pub create_array : Json
  pub add_string : Json → Bytes → Bytes → Json
  pub add_number : Json → Bytes → ℤ → Json
  pub add_item_to_array : Json → Json → Json
  pub add_item_to_object : Json → Bytes → Json → Json
  pub print : Json → Bytes

-- The arrays that are not cleared between two files.
pub record Scratch : Type 0 where
  pub suffix : Bytes
  pub pic_name : Bytes
  pub get_ip_buf : Bytes

-- The arrays at the start of `read_redis_to_json`.
abbrev pub scratch : Scratch
scratch = record { suffix = zeros 8; pic_name = zeros 10; get_ip_buf = zeros 256 }

abbrev pub max_len : ℕ
max_len = 1023

-- One field of a row, in an array of that many cleared bytes.
abbrev pub read_field : Bytes → ℕ → ℕ → Exec Bytes
read_field row word_num size =
    Exec.◌>>=◌ (get_value_by_redis row (pos word_num) (zeros size) max_len) λ r. done r.1

-- `picurl`, and the arrays that it is made in: the url's front, "/static/file_png/", and the
-- suffix with ".png", which `sprintf` puts into `pic_name`.
unfoldable pub make_picurl : Scratch → Bytes → Bytes → Exec (Bytes × Scratch)
make_picurl s url filename = Exec.◌>>=◌ (get_ip_url (some url) (some s.get_ip_buf)) λ r.
    Exec.◌>>=◌ (nonnull r.1) λ get_ip_buf. Exec.◌>>=◌ (strcat (zeros 256) get_ip_buf) λ picurl.
      Exec.◌>>=◌ (strcat picurl (cstring (codes "/static/file_png/"))) λ picurl.
        Exec.◌>>=◌ (get_file_suffix (some filename) (some s.suffix)) λ r.
          Exec.◌>>=◌ (nonnull r.1) λ suffix. Exec.◌>>=◌ (text_of suffix) λ t.
            Exec.◌>>=◌ (strcpy s.pic_name (cstring (t ++ codes ".png"))) λ pic_name.
              Exec.◌>>=◌ (strcat picurl pic_name) λ picurl.
                done
                  (picurl, record { suffix = suffix; pic_name = pic_name; get_ip_buf = get_ip_buf })

module _ (H : Hiredis) (C : CJson) where
  open H use {World, Context}
  open C use {Json}

  -- The body of the loop over the rows.
  unfoldable pub make_item : Context → Bytes → Scratch → Action World (Json × Scratch)
  make_item conn row s = do
    file_id ← lift (read_field row 1 256)
    id ← lift (text_of file_id)
    let item = C.add_number (C.add_string C.create_object (codes "id") id) (codes "kind") (pos 2)
    filename ← lift (read_field row 3 256)
    title ← lift (text_of filename)
    let item = C.add_string item (codes "title_m") title
    usr ← lift (read_field row 5 128)
    user ← lift (text_of usr)
    let item = C.add_string item (codes "title_s") user
    create_time ← lift (read_field row 4 64)
    time ← lift (text_of create_time)
    let item = C.add_string item (codes "descrip") time
    url ← lift (read_field row 2 256)
    url_text ← lift (text_of url)
    let item = C.add_string item (codes "url") url_text
    made ← lift (make_picurl s url filename)
    picurl ← lift (text_of made.0)
    let item = C.add_string item (codes "picurl_m") picurl
    score ← rop_zset_get_score H conn (codes "FILE_HOT_ZSET") id
    pv ← lift (int_of (score -ℤ pos 1))
    let item = C.add_number (C.add_number item (codes "pv") pv) (codes "hot") (pos 0)
    return (item, made.1)

  -- `for (i = 0; i < value_num; i++)`, over the rows from `i` on.
  unfoldable pub make_items : Context → ℕ → List Bytes → Scratch → Json → Action World Json
  make_items conn zero rows s array = return array
  make_items conn (suc n) [] s array = lift fault
  make_items conn (suc n) (row ∷ rows) s array = do
    made ← make_item conn row s
    make_items conn n rows made.1 (C.add_item_to_array array made.0)

  -- Behind the connection: the result and what is printed. The rows have `cnt * VALUES_ID_SIZE` bytes. The page is logged first, which puts it into
  -- the array `mesg` of src/make_log.c.
  unfoldable pub list_files : Context → ℤ → ℤ → ℤ → List Bytes → Action World (ℤ × Option Bytes)
  list_files conn from_id end_id cnt rows = do
    size ← lift (int_of (times cnt values_id_size))
    r ← rop_range_list H conn (codes "FILE_INFO_LIST") from_id end_id rows
    let failed = do rop_disconnect H (some conn); return (minus_one, none)
    let listed = do
      array ← make_items conn r.2 r.1 scratch C.create_array
      let out = C.print (C.add_item_to_object C.create_object (codes "games") array)
      logged ← lift (sprintf 4096 (codes "out = " ++ out))
      rop_disconnect H (some conn)
      return (pos 0, some out)
    if ltb_ℤ r.0 (pos 0) then failed else listed

  abbrev list_with : Option Context → ℤ → ℤ → ℤ → List Bytes → Action World (ℤ × Option Bytes)
  list_with none from_id end_id cnt rows = lift (exits 1)
  list_with (some conn) from_id end_id cnt rows = list_files conn from_id end_id cnt rows

  unfoldable pub read_redis_to_json : ℤ → ℤ → List Bytes → Action World (ℤ × Option Bytes)
  read_redis_to_json from_id cnt rows = do
    sum ← lift (int_of (from_id +ℤ cnt))
    end_id ← lift (int_of (sum -ℤ pos 1))
    conn ← rop_connectdb_nopwd H (codes "127.0.0.1") (codes "6379")
    list_with conn from_id end_id cnt rows

module _ (H : Hiredis) where
  open H use {World, Context}

  abbrev increase_with : Option Context → Bytes → Action World ℤ
  increase_with none file_id = return minus_one
  increase_with (some conn) file_id = do
    counted ← rop_zset_increment H conn (codes "FILE_HOT_ZSET") file_id
    rop_disconnect H (some conn)
    return (pos 0)

  -- The text `file_id`; the result of the increment is dropped.
  unfoldable pub increase_file_pv : Bytes → Action World ℤ
  increase_file_pv file_id = do
    conn ← rop_connectdb_nopwd H (codes "127.0.0.1") (codes "6379")
    increase_with conn file_id
