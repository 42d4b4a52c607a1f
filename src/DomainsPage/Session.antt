-- ===== src/DomainsPage/Session.antt =====
-- The programs of the page and the invariant of the administrator's session.
use adscope_identity.Prelude.{String, true, false, Option, some, or_else, if◌then◌else◌}
use adscope_identity.UserApi.State.{success, failure}
use adscope_identity.AdminApi.State.{
  post_method, patch_method, changed_domain, saved_domain_payload,
}
use adscope_identity.AdminApi.{Platform}
use adscope_identity.AdminApi.Session.{
  KeepsSession, Preserves, write_refs-Preserves, notify-Preserves, in_turn, caught, gives, either,
  afterwards, changes, reads, beside, write_clipboard-Keeps,
}
use adscope_identity.AdminApi.Session.Operations.{
  admin_fetch-Keeps, present-Keeps, run_action-Keeps, load_domains-Keeps, load_sync_domains-Keeps,
}
use adscope_identity.DomainsPage.{Page, is_shown, domain_payload, saved}
use adscope_identity.DomainsPage.Programs.{
  on_page, set_saving, domains_path, domain_path, reload, save_steps, save_idle, save_domain,
  refresh_domains, copy_text, copy_syncer_key,
}

on_page-Preserves : (f : Page → Page) → Preserves (on_page f)
on_page-Preserves f = write_refs-Preserves (λ r. record r { catalog = f r.catalog })

module _ (platform : Platform) where
  reload-Keeps : KeepsSession 0 (reload platform)
  reload-Keeps = beside (load_domains-Keeps platform) (load_sync_domains-Keeps platform)

  save_steps-Keeps : (editing_id : Option String) → KeepsSession 0 (save_steps platform editing_id)
  unfolding save_steps
  save_steps-Keeps editing_id = reads (λ s.
      in_turn
        (either (is_shown editing_id)
          (admin_fetch-Keeps saved_domain_payload (domain_path platform (or_else editing_id ""))
            patch_method (changed_domain (domain_payload s.refs.catalog)))
          (admin_fetch-Keeps saved_domain_payload domains_path post_method
            (changed_domain (domain_payload s.refs.catalog))))
        (λ body.
          in_turn (present-Keeps platform body) (λ response.
            in_turn (changes (on_page-Preserves (saved response))) (λ _. reload-Keeps))))

  save_idle-Keeps : (editing_id : Option String) → KeepsSession 0 (save_idle platform editing_id)
  unfolding save_idle
  save_idle-Keeps editing_id = in_turn (changes (on_page-Preserves (set_saving true))) (λ _.
      afterwards
        (run_action-Keeps (save_steps platform editing_id)
          (some (if is_shown editing_id then "域配置已更新" else "域配置已创建")) (save_steps-Keeps editing_id))
        (on_page-Preserves (set_saving false)))

  pub save_domain-Keeps : KeepsSession 0 (save_domain platform)
  unfolding save_domain
  save_domain-Keeps = reads (λ s. either s.refs.catalog.saving (gives tt) (save_idle-Keeps _))

  pub refresh_domains-Keeps : KeepsSession 0 (refresh_domains platform)
  unfolding refresh_domains
  refresh_domains-Keeps = run_action-Keeps _ _ reload-Keeps

copy_text-Keeps : (value : String) → KeepsSession 0 (copy_text value)
unfolding copy_text
copy_text-Keeps value =
    caught
      (in_turn (write_clipboard-Keeps value)
        (λ _. changes (notify-Preserves (success "Syncer key 已复制"))))
      (λ _. changes (notify-Preserves (failure "复制失败，请手动复制 Syncer key")))

pub copy_syncer_key-Keeps : KeepsSession 0 copy_syncer_key
unfolding copy_syncer_key
copy_syncer_key-Keeps = reads (λ s.
    either (is_shown _) (copy_text-Keeps _)
      (changes (notify-Preserves (failure "无法访问剪贴板，请手动复制 Syncer key"))))
