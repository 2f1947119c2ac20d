-- ===== src/Tests/Storage.antt =====
-- A system that runs the storage's programs, and the functions that call them.
use distributed_storage.Base.{
  ℕ, ◌+◌, ◌-◌, ◌≡◌, refl, ltb, true, if◌then◌else◌, some, none, [], ◌∷◌, ◌++◌, pos, arith, take,
}
use distributed_storage.Clib.Chars.{isspace}
use distributed_storage.Clib.Exec.{done}
use distributed_storage.Clib.Strings.{Bytes, codes, zeros, padded}
use distributed_storage.Usefull.Storage.{fdfs_client, get_url}
use distributed_storage.Usefull.Storage.Client.{fdfs_client-id}
use distributed_storage.Usefull.Storage.Descriptors.{DescriptorLaws, storage-open_ends}
use distributed_storage.Usefull.Storage.Url.{get_url-file_url}
use distributed_storage.Usefull.System.{System, parent}
use distributed_storage.Usefull.TrimSpace.{may_copy}
use distributed_storage.Usefull.TrimSpace.Spaced.{IsSpaced}

-- The number of ends of pipes that are open, by which `out` chooses what the programs print.
abbrev pub machine : (ℕ → Bytes) → System ℕ
machine out = record {
  pipe = λ w. (true, w + 2);
  fork = λ w. (parent, w);
  close = λ e w. w - 1;
  dup = λ w. w;
  exec = λ program args w. (none, w);
  wait = λ w. w;
  read = λ n w. (take n (out w), w);
  malloc = λ n w. (some (zeros n), w);
  save = λ name bytes w. w;
  unlink = λ name w. w;
}

abbrev prints : ℕ → Bytes
prints w = if ltb w 5 then codes "g1/M\n" else codes "source ip address:1.2\n"

machine-DescriptorLaws : (out : ℕ → Bytes) → DescriptorLaws (machine out)
machine-DescriptorLaws out = record {
  open_ends = λ w. w;
  pipe_two = λ w e. refl;
  fork_same = λ w. refl;
  close_one = λ w. refl;
  wait_same = λ w. refl;
  read_same = λ n w. refl;
}

id-IsSpaced : IsSpaced [] (codes "g1/") b'M' (codes "\n")
id-IsSpaced = record {
  before = tt;
  behind = (unfold isspace in refl, tt);
  text = omega arith;
  first = unfold isspace in refl;
  last = unfold isspace in refl;
  end = omega arith;
}

ip-IsSpaced : IsSpaced [] (codes "1.") b'2' []
ip-IsSpaced = record {
  before = tt;
  behind = tt;
  text = omega arith;
  first = unfold isspace in refl;
  last = unfold isspace in refl;
  end = omega arith;
}

fdfs_client-id_example :
    fdfs_client (machine prints) (codes "a" ++ 0 ∷ []) (zeros 256) 3
    ≡ done ((pos 0, codes "g1/M" ++ 0 ∷ 0 ∷ zeros 250), 4)
unfolding may_copy
fdfs_client-id_example =
    fdfs_client-id (machine prints) [] (codes "g1/") b'M' (codes "\n") (codes "a" ++ 0 ∷ []) 3 4
      id-IsSpaced
      (record {
        piped = 5;
        split = 5;
        opened = refl;
        forked = refl;
        reads = refl;
        short = omega arith;
      })
      (omega arith)

get_url-file_url_example :
    get_url (machine prints) (codes "g1/M" ++ 0 ∷ []) (zeros 256) 4
    ≡ done ((pos 0, padded 256 (codes "http://1.2/g1/M")), 5)
unfolding may_copy
get_url-file_url_example =
    get_url-file_url [] [] (codes "1.") b'2' [] (codes "g1/M") [] tt (λ j lt. absurd (omega arith))
      ip-IsSpaced (omega arith) (omega arith) (machine prints) 4 5 []
      (record {
        piped = 6;
        split = 6;
        opened = refl;
        forked = refl;
        reads = refl;
        short = omega arith;
      })
      (omega arith) (omega arith)

storage-open_ends_example :
    (machine-DescriptorLaws prints).open_ends 5 ≡ (machine-DescriptorLaws prints).open_ends 3 + 2
unfolding may_copy
storage-open_ends_example =
    storage-open_ends (machine prints) (machine-DescriptorLaws prints) (codes "a" ++ 0 ∷ [])
      (zeros 256) (codes "g1/M" ++ 0 ∷ 0 ∷ zeros 250) (zeros 256)
      (padded 256 (codes "http://1.2/g1/M")) 3 4 5
      (fdfs_client-id (machine prints) [] (codes "g1/") b'M' (codes "\n") (codes "a" ++ 0 ∷ []) 3 4
        id-IsSpaced
        (record {
          piped = 5;
          split = 5;
          opened = refl;
          forked = refl;
          reads = refl;
          short = omega arith;
        })
        (omega arith))
      (get_url-file_url [] [] (codes "1.") b'2' [] (codes "g1/M") (0 ∷ zeros 250) tt
        (λ j lt. absurd (omega arith)) ip-IsSpaced (omega arith) (omega arith) (machine prints) 4 5
        []
        (record {
          piped = 6;
          split = 6;
          opened = refl;
          forked = refl;
          reads = refl;
          short = omega arith;
        })
        (omega arith) (omega arith))
