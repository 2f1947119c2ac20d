-- ===== src/Tests/Records.antt =====
-- The value format: `write_redis` and `get_value_by_redis` on one picture.
use distributed_storage.Base.{some, false, minus_one, ◌≡◌, refl, [], ◌∷◌, ◌++◌, pos, arith}
use distributed_storage.Clib.Chars.{isspace}
use distributed_storage.Clib.Chars.{atoi, signed, digits, isdigit, uint16}
use distributed_storage.RedisOp.Connect.{rop_connectdb_nopwd, checked}
use distributed_storage.RedisOp.Hiredis.{Reply, ReplyType}
use distributed_storage.RedisOp.Values.{rop_list_push, rop_zset_increment}
use distributed_storage.RoundTrip.Sent.{write_redis-print}
use distributed_storage.Tests.Toy.{toy}
use distributed_storage.Usefull.WriteRedis.{write_redis}
use distributed_storage.Clib.Exec.{done, fault, ◌>>=◌}
use distributed_storage.Clib.Strings.{
  equal, Bytes, codes, zeros, padded, strlen, tail_at, get_at, put_prefix, strncpy, set_at,
}
use distributed_storage.DataUse.Fields.{get_value_by_redis}
use distributed_storage.DataUse.Fields.RoundTrip.{
  get_value_by_redis-print, get_value_by_redis_empty_url,
}
use distributed_storage.FileInfo.{FileInfo}
use distributed_storage.RoundTrip.{Upload, get_value_by_redis-make_value}
use distributed_storage.Tests.Inputs.{photo, photo-IsStored}
use distributed_storage.Usefull.Suffix.Spec.{suffix_of, after_dot, or_null}
use distributed_storage.Usefull.TrimSpace.{trim_space, skip_space, retreat, may_copy}
use distributed_storage.Usefull.WriteRedis.{make_value}

-- The array of the time, with a space in front.
abbrev time_array : Bytes
time_array = codes "9:30 " ++ 0 ∷ 0 ∷ []

time_trimmed : trim_space time_array ≡ done (pos 0, photo.create_time ++ 0 ∷ 0 ∷ 0 ∷ [])
unfolding trim_space skip_space retreat may_copy isspace strlen tail_at get_at put_prefix strncpy
    set_at
time_trimmed = refl

photo_kind : photo.kind ≡ suffix_of photo.filename
unfolding suffix_of after_dot or_null
photo_kind = refl

photo-Upload : Upload photo time_array (0 ∷ 0 ∷ []) 40
photo-Upload = record {
  is_stored = photo-IsStored;
  is_kind = photo_kind;
  trimmed = time_trimmed;
  short = omega arith;
  fits = omega arith;
}

photo-Upload_whole : Upload photo time_array (0 ∷ 0 ∷ []) 1024
photo-Upload_whole = record {
  is_stored = photo-IsStored;
  is_kind = photo_kind;
  trimmed = time_trimmed;
  short = omega arith;
  fits = omega arith;
}

abbrev answer : Reply
answer = record { type = ReplyType.integer; integer = pos 1; str = some (codes "1"); element = [] }

write_redis-print_example :
    write_redis
      (toy false (some answer))
      (some (zeros 1024))
      time_array
      (photo.file_id ++ 0 ∷ [])
      (photo.url ++ 0 ∷ [])
      (photo.filename ++ 0 ∷ [])
      (photo.user ++ 0 ∷ [])
      (4, [])
    ≡ done (pos 0, (4, []))
write_redis-print_example =
    write_redis-print (toy false (some answer)) tt photo (zeros 1024) time_array [] [] []
      (0 ∷ 0 ∷ []) [] (pos 0) minus_one (4, []) (5, []) (5, []) (5, []) photo-Upload_whole refl
      (unfold rop_connectdb_nopwd checked atoi signed digits isdigit isspace uint16 in refl)
      (unfold rop_list_push in refl) (unfold rop_zset_increment equal in refl)

get_value_by_redis-make_value_example :
    (make_value
        (zeros 40)
        time_array
        (photo.file_id ++ 0 ∷ [])
        (photo.url ++ 0 ∷ [])
        (photo.filename ++ 0 ∷ [])
        (photo.user ++ 0 ∷ [])
      >>= λ value. get_value_by_redis value (pos 4) (zeros 12) 10)
    ≡ done (pos 0, padded 12 (codes "9:30"))
get_value_by_redis-make_value_example =
    get_value_by_redis-make_value photo time_array [] [] [] (0 ∷ 0 ∷ []) [] 40 4 12 10 photo-Upload
      (omega arith) (omega arith) (omega arith) (omega arith) (omega arith)

get_value_by_redis-print_example :
    get_value_by_redis (codes "g1/M||h/g1/M||a.jpg||9:30||me||jpg" ++ 0 ∷ []) (pos 6) (zeros 12) 10
    ≡ done (pos 0, padded 12 (codes "jpg"))
get_value_by_redis-print_example =
    get_value_by_redis-print photo [] 6 12 10 photo-IsStored (omega arith) (omega arith)
      (omega arith) (omega arith) (omega arith)

abbrev no_url : FileInfo
no_url = record {
  file_id = codes "g1/M";
  url = [];
  filename = codes "a.jpg";
  create_time = codes "9:30";
  user = codes "me";
  kind = codes "jpg";
}

get_value_by_redis_empty_url_example :
    get_value_by_redis (codes "g1/M||||a.jpg||9:30||me||jpg" ++ 0 ∷ []) (pos 4) (zeros 12) 10
    ≡ fault
get_value_by_redis_empty_url_example =
    get_value_by_redis_empty_url no_url [] (zeros 12) 10 (omega arith) (omega arith) refl
