-- ===== src/Examples/Asking.antt =====
-- A client that asks the program for a message.
use http_cpp.Base.{codes, List, [], ◌∷◌, ◌++◌, some, false}
use http_cpp.HttpServer.Forward.Laws.{Message}
use http_cpp.HttpServer.HttpWebsite.{HttpWebsite}
use http_cpp.HttpServer.Server.Serves.{websites}
use http_cpp.HttpService.ExtractHostLaws.{port_text}
use http_cpp.HttpWorker.ServeFile.{get_frame}
use http_cpp.Cluster.{Cluster, ready}
use http_cpp.Examples.Program.{installed, inside, installed-IsReady}

abbrev both : List HttpWebsite
both = websites false (codes "server" ∷ []) inside installed installed-IsReady

abbrev client : Message
client = record {
  id = codes "c1";
  parts = [];
  last = get_frame (codes "message/" ++ codes "42") (codes "localhost" ++ port_text (some 8082));
}

abbrev asked : Cluster
asked = record (ready 4) { arrived = client ∷ []; waiting = client ∷ [] }
