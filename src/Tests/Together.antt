-- ===== src/Tests/Together.antt =====
-- Requests of both programs on one server.
use distributed_storage.Base.{List, [], arith, none, refl, ◌∷◌}
use distributed_storage.Clib.Strings.{Bytes, codes, zeros}
use distributed_storage.Shelf.Traffic.{Event, Runs-Holds}
use distributed_storage.Programs.DataCgi as DataCgi
use distributed_storage.Programs.DataCgi.Fresh as Fresh
use distributed_storage.Programs.DataCgi.NewFile.{list_request}
use distributed_storage.Programs.DataCgi.Increase.{IsPart, click_request}
use distributed_storage.Tests.Staged.{staged}
use distributed_storage.Tests.Forms.{uploaded}
use distributed_storage.Shelf.Traffic as Traffic
use distributed_storage.Tests.Staged.{plain}

group1-IsPart : IsPart (codes "group1")
group1-IsPart = (
  (refl, λ e. cc),
  ((refl, λ e. cc), ((refl, λ e. cc), ((refl, λ e. cc), ((refl, λ e. cc), ((refl, λ e. cc), tt))))),
)

m-IsPart : IsPart (codes "M")
m-IsPart = ((refl, λ e. cc), tt)

abbrev a_click : DataCgi.Request
a_click = click_request (codes "group1") [] (codes "M") [] group1-IsPart tt m-IsPart staged plain []

abbrev events : List Event
events = Traffic.uploaded uploaded ∷ Traffic.clicked (codes "group1/M") ∷ []

abbrev rows : List Bytes
rows = zeros 1024 ∷ zeros 1024 ∷ []

abbrev a_list : DataCgi.Request
a_list = list_request (codes "0") (codes "2") [] (omega arith) (omega arith) staged plain rows none
