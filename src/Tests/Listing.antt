-- ===== src/Tests/Listing.antt =====
-- The address of a picture.
use distributed_storage.Base.{◌≡◌, refl, [], ◌∷◌, ◌++◌, arith}
use distributed_storage.Clib.Exec.{done}
use distributed_storage.Clib.Strings.{codes, zeros, padded, starts_with}
use distributed_storage.DataUse.IpUrl.Prefix.{group}
use distributed_storage.DataUse.Listing.{scratch, make_picurl}
use distributed_storage.DataUse.Listing.Picture.{make_picurl_bounds}
use distributed_storage.Clib.First.{is_absent, is_absent-Absent}
use distributed_storage.Usefull.Suffix.Spec.{suffix_of, after_dot, or_null, put}

make_picurl_bounds_example :
    make_picurl scratch (codes "h/group1/M" ++ 0 ∷ []) (codes "a.jpg" ++ 0 ∷ [])
    ≡ done (
      padded 256 (codes "h/static/file_png/jpg.png"),
      record {
        suffix = put (zeros 8) (codes "jpg");
        pic_name = put (zeros 10) (codes "jpg.png");
        get_ip_buf = put (zeros 256) (codes "h");
      },
    )
unfolding suffix_of after_dot or_null
make_picurl_bounds_example =
    make_picurl_bounds (codes "h") (codes "1/M" ++ 0 ∷ []) (codes "a.jpg") [] scratch (omega arith)
      (omega arith)
      (is_absent-Absent group (codes "h/group1/M" ++ 0 ∷ []) 1
        (unfold is_absent starts_with in refl))
      (omega arith) (omega arith) (omega arith) (omega arith)
