-- ===== src/Stoat/Server.antt =====
-- internal/stoat/server.go, message.go, member.go and the upload of attachment.go.
use luars_stoatcord.Prelude.{String, List, [], ◌∷◌, ◌++◌, contains, if◌then◌else◌}
use luars_stoatcord.Canonical.Types.{Category, StoatServer, StoatMessage}
use luars_stoatcord.World.{
  Env, World, edit_server, set_categories, send_message, edit_message, delete_message, upload,
  edit_member,
}
use luars_stoatcord.World.Exec.{Exec, pure, ◌>>=◌, ◌>>◌}
use luars_stoatcord.Stoat.Client.{call, fetch_self, fetch_member_roles}

module _ (env : Env) where
  unfoldable pub put_server : String → StoatServer → Exec World String
  put_server id meta = call env (edit_server id meta.name meta.description)

  -- Client.SetCategories: the library's category carries id, title and channel ids
  unfoldable pub put_categories : String → List Category → Exec World String
  put_categories server categories = call env (set_categories server categories)

  -- Client.SendMessage: a reply is sent when the reply id is not empty
  unfoldable pub post : String → StoatMessage → Exec World String
  post channel msg = call env (send_message channel msg)

  unfoldable pub edit_post : String → String → String → Exec World String
  edit_post channel id content = call env (edit_message channel id content)

  unfoldable pub delete_post : String → String → Exec World String
  delete_post channel id = call env (delete_message channel id)

  -- Client.UploadFromURL: the download and the upload together are one question
  unfoldable pub upload_from_url : String → String → Exec World String
  upload_from_url tag url = call env (upload tag url)

  -- Client.AddSelfToRole
  unfoldable pub add_self_to_role : String → String → Exec World (Unit {0})
  add_self_to_role server role = do
    user ← fetch_self env
    roles ← fetch_member_roles env server user
    if contains role roles
        then pure tt
        else (do call env (edit_member server user (roles ++ role ∷ [])); pure tt)
