-- ===== src/DomainsPage/Programs.antt =====
-- portal/web/app/pages/admin/domains.vue: what the page does with the server and the clipboard.
use Prim.Native.String
use adscope_identity.Prelude.{String, Bool, true, false, if◌then◌else◌, Option, some, or_else}
use adscope_identity.Async.{return, ◌>>=◌, ◌>>◌, catch, finally, read, modify, call, all_of}
use adscope_identity.UserApi.State.{success, failure}
use adscope_identity.AdminApi.State.{
  Store, post_method, patch_method, changed_domain, saved_domain_payload, write_clipboard,
}
use adscope_identity.AdminApi.{
  Action, Platform, notify, run_action, write_refs, admin_fetch, present,
}
use adscope_identity.AdminApi.Loads.{load_domains, load_sync_domains}
use adscope_identity.DomainsPage.{Page, is_shown, domain_payload, saved}

abbrev pub on_page : (Page → Page) → Store → Store
on_page f = write_refs (λ r. record r { catalog = f r.catalog })

abbrev pub set_saving : Bool → Page → Page
set_saving b p = record p { saving = b }

abbrev pub domains_path : String
domains_path = "/api/admin/domains"

module _ (platform : Platform) where
  -- `Promise.all([loadDomains(), loadSyncDomains()])`
  abbrev pub reload : Action (Unit {0})
  reload = all_of (load_domains platform) (load_sync_domains platform)

  abbrev pub domain_path : String → String
  domain_path id = String.◌++◌ domains_path (String.◌++◌ "/" (platform.encode_uri_component id))

  -- The action of `saveDomain`.
  unfoldable pub save_steps : Option String → Action (Unit {0})
  save_steps editing_id = do
    s ← read
    body ←
        (if is_shown editing_id
          then admin_fetch saved_domain_payload (domain_path (or_else editing_id "")) patch_method
              (changed_domain (domain_payload s.refs.catalog))
          else admin_fetch saved_domain_payload domains_path post_method
              (changed_domain (domain_payload s.refs.catalog)))
    response ← present platform body
    modify (on_page (saved response))
    reload

  unfoldable pub save_idle : Option String → Action (Unit {0})
  save_idle editing_id = do
    modify (on_page (set_saving true))
    finally
        (run_action (save_steps editing_id)
          (some (if is_shown editing_id then "域配置已更新" else "域配置已创建")))
        (on_page (set_saving false))

  unfoldable pub save_domain : Action (Unit {0})
  save_domain = do
    s ← read
    if s.refs.catalog.saving then return tt else save_idle s.refs.catalog.selected_domain_id

  unfoldable pub refresh_domains : Action (Unit {0})
  refresh_domains = run_action reload (some "域数据已刷新")

unfoldable pub copy_text : String → Action (Unit {0})
copy_text value =
    catch (do _ ← call (write_clipboard value); modify (notify (success "Syncer key 已复制")))
      (λ _. modify (notify (failure "复制失败，请手动复制 Syncer key")))

-- `copySyncerKey`, in a browser with a clipboard.
unfoldable pub copy_syncer_key : Action (Unit {0})
copy_syncer_key = do
  s ← read
  if is_shown s.refs.catalog.syncer_key
      then copy_text (or_else s.refs.catalog.syncer_key "")
      else modify (notify (failure "无法访问剪贴板，请手动复制 Syncer key"))
