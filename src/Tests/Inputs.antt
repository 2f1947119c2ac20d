-- ===== src/Tests/Inputs.antt =====
-- Inputs that the tests share, and a test for the hypothesis `Absent`.
use distributed_storage.Base.{arith}
use distributed_storage.Clib.Strings.{codes}
use distributed_storage.FileInfo.{FileInfo, IsStored}

abbrev pub photo : FileInfo
photo = record {
  file_id = codes "g1/M";
  url = codes "h/g1/M";
  filename = codes "a.jpg";
  create_time = codes "9:30";
  user = codes "me";
  kind = codes "jpg";
}

pub photo-IsStored : IsStored photo
photo-IsStored = record {
  fields = (omega arith, (omega arith, (omega arith, (omega arith, (omega arith, tt)))));
  kind_clean = omega arith;
  url_ne_nil = λ e. cc;
  filename_ne_nil = λ e. cc;
  create_time_ne_nil = λ e. cc;
}
