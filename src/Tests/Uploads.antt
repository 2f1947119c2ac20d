-- ===== src/Tests/Uploads.antt =====
-- The upload program on one request.
use distributed_storage.Base.{◌≡◌, refl, [], ◌∷◌, minus_one, arith, ◌⊎◌}
use distributed_storage.Clib.Chars.{isspace}
use distributed_storage.Clib.Exec.{done}
use distributed_storage.Clib.Strings.{codes, zeros}
use distributed_storage.Programs.Upload.{Outcome, next, returns, handle}
use distributed_storage.Programs.Upload.Clean.{IsSized, clean}
use distributed_storage.Programs.Upload.Cleared.{handle-outcomes}
use distributed_storage.Programs.Upload.Taken.{Run}
use distributed_storage.Programs.Upload.Kept.{handle-add}
use distributed_storage.Programs.Upload.AnyRequest.{handle-Grows}
use distributed_storage.Programs.Upload.Grows.{Added}
use distributed_storage.Shelf.Connects.{Keeps}
use distributed_storage.Shelf.{Holds, add}
use distributed_storage.Shelf.Listed.{no_files}
use distributed_storage.Usefull.TrimSpace.{may_copy}
use distributed_storage.Usefull.TrimSpace.Spaced.{IsSpaced}
use distributed_storage.Tests.Staged.{
  World, staged, staged-ServerLaws, connected_staged, keeper, keeper-Apart, start, behind_unlink,
  empty-Holds,
}
use distributed_storage.Tests.Forms.{uploaded, request, request-Posted, uploaded-Upload}

pub id-IsSpaced : IsSpaced [] (codes "group1/") b'M' (codes "\n")
id-IsSpaced = record {
  before = tt;
  behind = (unfold isspace in refl, tt);
  text = omega arith;
  first = unfold isspace in refl;
  last = unfold isspace in refl;
  end = omega arith;
}

pub ip-IsSpaced : IsSpaced [] (codes "1.") b'2' []
ip-IsSpaced = record {
  before = tt;
  behind = tt;
  text = omega arith;
  first = unfold isspace in refl;
  last = unfold isspace in refl;
  end = omega arith;
}

pub keeper-Run : Run staged keeper uploaded (1 ∷ 0 ∷ []) (codes "1.2") 45 start behind_unlink
keeper-Run = record {
  allocated = start;
  uploaded = start;
  block = zeros 46;
  out_id = codes "group1/M\n";
  out_ip = codes "source ip address:1.2\n";
  gives = refl;
  is_block = refl;
  uploads = record {
    piped = start;
    split = start;
    opened = refl;
    forked = refl;
    reads = refl;
    short = omega arith;
  };
  names = record {
    before = [];
    front = codes "group1/";
    last = b'M';
    behind = codes "\n";
    is_id = refl;
    is_out = refl;
    is_spaced = id-IsSpaced;
    free = unfold may_copy in refl;
    short = omega arith;
  };
  searches = record {
    piped = behind_unlink;
    split = behind_unlink;
    opened = refl;
    forked = refl;
    reads = refl;
    short = omega arith;
  };
  locates = record {
    lines = [];
    before = [];
    front = codes "1.";
    last = b'2';
    behind = [];
    rest = [];
    is_text = tt;
    first = λ j lt. absurd (omega arith);
    is_spaced = ip-IsSpaced;
    is_line = omega arith;
    is_ip = refl;
    is_out = refl;
    short = omega arith;
    free = unfold may_copy in refl;
    fits = omega arith;
  };
}

-- The request, run once for the witnesses below.
pub stored :
    (w' : World) × (handle staged keeper request clean start ≡ done (next clean, w'))
    × Holds staged tt staged-ServerLaws (add uploaded no_files) w'
unfolding request-Posted
stored =
    handle-add staged keeper tt staged-ServerLaws keeper-Apart request uploaded (1 ∷ 0 ∷ [])
      (codes "1.2") (0 ∷ 0 ∷ []) no_files start behind_unlink behind_unlink request-Posted
      keeper-Run uploaded-Upload refl refl (omega arith) (connected_staged behind_unlink)
      empty-Holds

handle-Grows_example :
    Keeps staged tt staged-ServerLaws start stored.0
    ⊎ Added staged keeper tt staged-ServerLaws keeper-Apart (λ ip port w c e. refl) start stored.0
handle-Grows_example =
    handle-Grows staged keeper tt staged-ServerLaws keeper-Apart (λ ip port w c e. refl) request
      clean (next clean) start stored.0 stored.1

clean-IsSized : IsSized clean
clean-IsSized = record {
  filename_size = refl;
  file_id_size = refl;
  url_size = refl;
  usr_size = refl;
}

handle-outcomes_example :
    (next clean ≡ next clean) ⊎ (◌≡◌ {A = Outcome} (next clean) (returns minus_one))
handle-outcomes_example =
    handle-outcomes staged keeper request clean (next clean) start stored.0 clean-IsSized stored.1
